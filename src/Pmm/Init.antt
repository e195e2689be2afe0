-- ===== src/Pmm/Init.antt =====
-- `init` of src/mm/pmm.cpp: every frame starts in use.
use weng_shi_os.Base.{
  ℕ, zero, suc, ◌+◌, ◌*◌, ◌/◌, ◌%◌, ◌^◌, ◌≤◌, ◌<◌, ◌≡◌, refl, true, List, get_or, length,
  length-set, get_or-set_self, get_or-set_ne, arith, ℕ_discrete, ◌∙◌, sym,
}
use weng_shi_os.Base.Bits.{bit_at}
use weng_shi_os.Pmm.{test_bit, fill_bytes, init}
use weng_shi_os.Pmm.Bitmap.{count_used, test_bit-bit_at}
use weng_shi_os.Pmm.Alloc.{IsValid, is_used}

length-fill_bytes : (n i : ℕ) (b : List ℕ) → length (fill_bytes n i b) ≡ length b
unfolding fill_bytes
length-fill_bytes zero i b = refl
length-fill_bytes (suc n) i b = length-fill_bytes n (i + 1) _ ∙ length-set b i 0xFF

get_or-fill_bytes_before :
    (n i j : ℕ) (b : List ℕ) → j < i → get_or (fill_bytes n i b) j 0 ≡ get_or b j 0
unfolding fill_bytes
get_or-fill_bytes_before zero i j b h = refl
get_or-fill_bytes_before (suc n) i j b h =
    get_or-fill_bytes_before n (i + 1) j _ (omega arith) ∙ get_or-set_ne b i j 0xFF 0 (omega arith)

get_or-fill_bytes :
    (n i j : ℕ) (b : List ℕ)
    → i ≤ j
    → j < i + n
    → j < length b
    → get_or (fill_bytes n i b) j 0 ≡ 0xFF
unfolding fill_bytes
get_or-fill_bytes zero i j b h k l = absurd (omega arith)
get_or-fill_bytes (suc n) i j b h k l = elim (ℕ_discrete i j) [
  | yes e ↦
      get_or-fill_bytes_before n (i + 1) j _ (omega arith) ∙ rw e (get_or-set_self b j 0xFF 0 l)
  | no ne ↦ get_or-fill_bytes n (i + 1) j _ (omega arith) (omega arith) (rw (length-set b i 0xFF) l)
]

bit_at-full : (k : ℕ) → k < 8 → bit_at 0xFF k ≡ 1
bit_at-full zero h = refl
bit_at-full (suc zero) h = refl
bit_at-full (suc (suc zero)) h = refl
bit_at-full (suc (suc (suc zero))) h = refl
bit_at-full (suc (suc (suc (suc zero)))) h = refl
bit_at-full (suc (suc (suc (suc (suc zero))))) h = refl
bit_at-full (suc (suc (suc (suc (suc (suc zero)))))) h = refl
bit_at-full (suc (suc (suc (suc (suc (suc (suc zero))))))) h = refl
bit_at-full (suc (suc (suc (suc (suc (suc (suc (suc k)))))))) h = absurd (omega arith)

init-is_used :
    (highest : ℕ) (storage : List ℕ) (f : ℕ)
    → highest / 4096 ≤ 8 * length storage
    → f < highest / 4096
    → is_used (init highest storage) f ≡ true
unfolding init
init-is_used highest storage f room h = ground (
  arith,
  test_bit-bit_at (init highest storage).bitmap f,
  get_or-fill_bytes ((highest / 4096 + 7) / 8) 0 (f / 8) storage,
  bit_at-full (f % 8),
)

count_used-full :
    (b : List ℕ) (n : ℕ) → ((f : ℕ) → f < n → test_bit b f ≡ true) → count_used b n ≡ n
count_used-full b zero h = refl
count_used-full b (suc n) h =
    ground (arith, count_used-full b n (λ f l. h f (omega arith)), h n (omega arith))

-- Given storage for its bitmap and an address below 2 ^ 64, `init` establishes the invariant with
-- every frame in use, so that only regions that are freed later can be handed out.
pub init-IsValid :
    (highest : ℕ) (storage : List ℕ)
    → highest < 2 ^ 64
    → highest / 4096 ≤ 8 * length storage
    → IsValid (init highest storage)
      × ((f : ℕ) → f < highest / 4096 → is_used (init highest storage) f ≡ true)
unfolding init
init-IsValid highest storage small room = (
  record {
    small = omega arith;
    room = rw (length-fill_bytes ((highest / 4096 + 7) / 8) 0 storage) room;
    counted = sym (count_used-full _ _ (λ f h. init-is_used highest storage f room h));
    hint_in = omega arith;
  },
  λ f h. init-is_used highest storage f room h,
)
