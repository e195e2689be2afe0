-- ===== src/Pmm/Tests.antt =====
-- The laws of src/mm/pmm.cpp at a machine of ten frames.
use weng_shi_os.Base.{ℕ, ◌≡◌, ◌≢◌, refl, true, false, [], ◌∷◌, arith}
use weng_shi_os.Base.Word.{u64_max}
use weng_shi_os.Pmm.{
  Pmm, test_bit, alloc_loop, alloc_frame, free_frame, mark_region_free, mark_region_used,
}
use weng_shi_os.Pmm.Alloc.{IsValid, is_used, Outcome, alloc_frame-Outcome}
use weng_shi_os.Pmm.Region.{
  Marks, mark_region_free-Marks, mark_region_used-Marks, free_frame-alloc_frame,
}

-- Ten frames, the frames 0, 1 and 3 in use.
abbrev ten_frames : Pmm
ten_frames = record { bitmap = 11 ∷ 0 ∷ []; total_frames = 10; used_frames = 3; search_hint = 3 }

ten_frames-IsValid : IsValid ten_frames
unfolding test_bit
ten_frames-IsValid = record {
  small = omega arith;
  room = omega arith;
  counted = refl;
  hint_in = omega arith;
}

alloc_frame-Outcome_example : Outcome ten_frames (alloc_frame ten_frames)
alloc_frame-Outcome_example = alloc_frame-Outcome ten_frames ten_frames-IsValid

mark_region_free-Marks_example : Marks ten_frames (mark_region_free ten_frames 4096 5000) 1 2 false
mark_region_free-Marks_example =
    mark_region_free-Marks ten_frames 4096 5000 ten_frames-IsValid (omega arith)

mark_region_used-Marks_example : Marks ten_frames (mark_region_used ten_frames 4097 5000) 1 3 true
mark_region_used-Marks_example =
    mark_region_used-Marks ten_frames 4097 5000 ten_frames-IsValid (omega arith)

next_is_two : (alloc_frame ten_frames).1 ≢ u64_max
unfolding alloc_frame alloc_loop test_bit
next_is_two e = omega (arith, e)

free_frame-alloc_frame_example :
    ((g : ℕ)
      → is_used (free_frame (alloc_frame ten_frames).0 (alloc_frame ten_frames).1) g
        ≡ is_used ten_frames g)
    × ((free_frame (alloc_frame ten_frames).0 (alloc_frame ten_frames).1).used_frames ≡ 3)
free_frame-alloc_frame_example = free_frame-alloc_frame ten_frames ten_frames-IsValid next_is_two
