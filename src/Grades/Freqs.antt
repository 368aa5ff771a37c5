-- ===== src/Grades/Freqs.antt =====
-- The frequency tables of hw2/src/stats.c.
pub mod Laws
use c_language.Prelude.{ℕ, zero, suc, ◌+◌, Bool, true, false, Option, none, some}
use c_language.Prelude.{List, [], ◌∷◌, map, if◌then◌else◌}
use c_language.Grades.Float.{FloatOps}
use c_language.Grades.Data.{Freqs, Classstats, Tally}

module _ (F : FloatOps) where
  -- A new bucket; `do_quantiles` writes the two numbers before anything reads them.
  unfoldable pub new_bucket : F.Num → Freqs F
  new_bucket g = record { score = g; count = 1; numless = 0; numlesseq = 0 }

  unfoldable pub count_score : F.Num → List (Freqs F) → List (Freqs F)
  count_score g [] = new_bucket g ∷ []
  count_score g (fp ∷ rest) =
      let later = count_score g rest in
      if F.same fp.score g
      then record fp { count = suc fp.count } ∷ rest
      else (if F.less g fp.score then new_bucket g ∷ (fp ∷ rest) else fp ∷ later)

  -- The inner loops of `do_quantiles`.
  unfoldable pub number_buckets : ℕ → List (Freqs F) → List (Freqs F)
  number_buckets sum [] = []
  number_buckets sum (fp ∷ rest) =
      record fp { numless = sum; numlesseq = sum + fp.count } ∷ number_buckets (sum + fp.count) rest

  unfoldable pub number_tally : Tally F → Tally F
  number_tally t = record t { freqs = number_buckets 0 t.freqs }

  unfoldable pub do_quantiles : List (Classstats F) → List (Classstats F)
  do_quantiles s =
      map (λ c. record { tally = number_tally c.tally; sstats = map number_tally c.sstats }) s
