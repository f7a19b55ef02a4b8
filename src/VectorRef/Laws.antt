-- ===== src/VectorRef/Laws.antt =====
-- What the two forms of `cropped` show (libdevcore/vector_ref.h).
use mvis_tokenminer.Prelude.{◌+◌, ◌<◌, ◌≡◌, arith, List, ◌++◌, le→leb, lt→==_false, length}
use mvis_tokenminer.Prelude.{length-append, take-append, drop-append}
use mvis_tokenminer.VectorRef.{size_max, cropped, cropped_from}

module _ {ℓ} {A : Type ℓ} (pre mid rest : List A) where
  -- The part of a view that stands between two others.
  pub cropped-append :
      length mid < size_max → cropped (length pre) (length mid) (pre ++ (mid ++ rest)) ≡ mid
  unfolding cropped
  cropped-append h =
      rw
        (
          le→leb (length pre) (length (pre ++ (mid ++ rest))) (omega (arith, whole)),
          le→leb (length mid) (length (pre ++ (mid ++ rest))) (omega (arith, whole)),
          le→leb (length pre + length mid) (length (pre ++ (mid ++ rest))) (omega (arith, whole)),
          lt→==_false (length mid) size_max h,
          drop-append pre (mid ++ rest),
        )
        (take-append mid rest)
    where
      whole : length (pre ++ (mid ++ rest)) ≡ length pre + (length mid + length rest)
      whole = omega (arith, length-append pre (mid ++ rest), length-append mid rest)

  pub cropped_from-append : cropped_from (length pre) (pre ++ rest) ≡ rest
  unfolding cropped_from
  cropped_from-append =
      rw (le→leb (length pre) (length (pre ++ rest)) (omega (arith, length-append pre rest)))
        (drop-append pre rest)
