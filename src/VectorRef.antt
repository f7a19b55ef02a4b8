-- ===== src/VectorRef.antt =====
-- libdevcore/vector_ref.h: a view of a run of elements, as the list of what it shows. The null view
-- and an empty view show nothing alike.
pub mod Laws
use mvis_tokenminer.Prelude.{ℕ, ◌+◌, ◌-◌, ◌^◌, Bool, ◌&&◌, List, []}
use mvis_tokenminer.Prelude.{leb, ◌==◌, if◌then◌else◌, length, take, drop}

-- `~size_t(0)`
abbrev pub size_max : ℕ
size_max = 2 ^ 64 - 1

module _ {ℓ} {A : Type ℓ} where
  -- `cropped(_begin, _count)`
  pub cropped : ℕ → ℕ → List A → List A
  cropped begin count d =
      if leb begin (length d) && leb count (length d) && leb (begin + count) (length d)
      then (if count == size_max
          then take (length d - begin) (drop begin d)
          else take count (drop begin d))
      else []

  -- `cropped(_begin)`
  unfoldable pub cropped_from : ℕ → List A → List A
  cropped_from begin d = if leb begin (length d) then drop begin d else []
