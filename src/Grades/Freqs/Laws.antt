-- ===== src/Grades/Freqs/Laws.antt =====
-- A frequency table as the list of grades it was built from.
use c_language.Prelude.{ℕ, ◌+◌, ◌≡◌, ◌↔◌, refl, sym, ap, ◌∙◌, Bool, true, false, ◌||◌, arith}
use c_language.Prelude.{List, [], ◌∷◌, if◌then◌else◌, Bool-cases, inl, inr}
use c_language.Grades.Float.{FloatOps}
use c_language.Grades.Data.{Freqs}
use c_language.Grades.Freqs.{new_bucket, count_score, number_buckets}

-- `<` and `==` order the numbers, as they do where none is a NaN.
pub record IsOrder (F : FloatOps) : Type 0 where
  pub same_iff : (a b : F.Num) → (F.same a b ≡ true) ↔ (a ≡ b)
  pub irreflexive : (a : F.Num) → F.less a a ≡ false
  pub transitive : (a b c : F.Num) → F.less a b ≡ true → F.less b c ≡ true → F.less a c ≡ true
  pub total_order : (a b : F.Num) → F.same a b ≡ false → F.less b a ≡ false → F.less a b ≡ true

unfoldable pub one_if : Bool → ℕ
one_if true = 1
one_if false = 0

module _ (F : FloatOps) where
  -- The grades counted one after another into an empty table, as `do_freqs` does.
  pub table : List F.Num → List (Freqs F)
  table [] = []
  table (g ∷ gs) = count_score F g (table gs)

  -- The number of grades that pass a test, and the counts of the buckets whose scores do.
  pub how_many : (F.Num → Bool) → List F.Num → ℕ
  how_many p [] = 0
  how_many p (g ∷ gs) = one_if (p g) + how_many p gs

  pub total : (F.Num → Bool) → List (Freqs F) → ℕ
  total p [] = 0
  total p (b ∷ bs) = (if p b.score then b.count else 0) + total p bs

  pub AllAbove : F.Num → List (Freqs F) → Type 0
  AllAbove g [] = Unit
  AllAbove g (b ∷ bs) = (F.less g b.score ≡ true) × AllAbove g bs

  pub IsSorted : List (Freqs F) → Type 0
  IsSorted [] = Unit
  IsSorted (b ∷ bs) = AllAbove b.score bs × IsSorted bs

  module _ (o : IsOrder F) where
    above_lower :
        (g h : F.Num) (bs : List (Freqs F)) → F.less g h ≡ true → AllAbove h bs → AllAbove g bs
    unfolding AllAbove
    above_lower g h [] l a = tt
    above_lower g h (b ∷ bs) l (p, a) = (o.transitive g h b.score l p, above_lower g h bs l a)

    count_score-AllAbove :
        (g k : F.Num) (bs : List (Freqs F))
        → F.less k g ≡ true
        → AllAbove k bs
        → AllAbove k (count_score F g bs)
    unfolding AllAbove count_score new_bucket
    count_score-AllAbove g k [] l a = (l, tt)
    count_score-AllAbove g k (b ∷ bs) l (p, a) = elim (Bool-cases (F.same b.score g)) [
      | inl e ↦ rw e (p, a)
      | inr e ↦ elim (Bool-cases (F.less g b.score)) [
        | inl f ↦ rw (e, f) (l, (p, a))
        | inr f ↦ rw (e, f) (p, count_score-AllAbove g k bs l a)
      ]
    ]

    count_score-IsSorted :
        (g : F.Num) (bs : List (Freqs F)) → IsSorted bs → IsSorted (count_score F g bs)
    unfolding IsSorted AllAbove count_score new_bucket
    count_score-IsSorted g [] s = (tt, tt)
    count_score-IsSorted g (b ∷ bs) (a, s) = elim (Bool-cases (F.same b.score g)) [
      | inl e ↦ rw e (a, s)
      | inr e ↦ elim (Bool-cases (F.less g b.score)) [
        | inl f ↦ rw (e, f) ((f, above_lower g b.score bs f a), (a, s))
        | inr f ↦
            rw (e, f)
              (
                count_score-AllAbove g b.score bs (o.total_order b.score g e f) a,
                count_score-IsSorted g bs s,
              )
      ]
    ]

    total-count_score :
        (p : F.Num → Bool) (g : F.Num) (bs : List (Freqs F))
        → total p (count_score F g bs) ≡ one_if (p g) + total p bs
    unfolding total count_score new_bucket one_if
    total-count_score p g [] = elim (Bool-cases (p g)) [ inl e ↦ rw e refl | inr e ↦ rw e refl ]
    total-count_score p g (b ∷ bs) = elim (Bool-cases (F.same b.score g)) [
      | inl e ↦
          let q : b.score ≡ g = (o.same_iff b.score g).0 e in
          let r : p b.score ≡ p g = ap p q in
          elim (Bool-cases (p g)) [
            | inl t ↦ rw (e, r, t) (omega arith)
            | inr t ↦ rw (e, r, t) (omega arith)
          ]
      | inr e ↦ elim (Bool-cases (F.less g b.score)) [
        | inl f ↦ elim (Bool-cases (p g)) [
          | inl t ↦ rw (e, f, t) (omega arith)
          | inr t ↦ rw (e, f, t) (omega arith)
        ]
        | inr f ↦ let ih = total-count_score p g bs in rw (e, f, ih) (omega arith)
      ]
    ]

    table-IsSorted : (gs : List F.Num) → IsSorted (table gs)
    unfolding table IsSorted
    table-IsSorted [] = tt
    table-IsSorted (g ∷ gs) = count_score-IsSorted g (table gs) (table-IsSorted gs)

    total-table : (p : F.Num → Bool) (gs : List F.Num) → total p (table gs) ≡ how_many p gs
    unfolding table how_many total
    total-table p [] = refl
    total-table p (g ∷ gs) =
        total-count_score p g (table gs) ∙ ap (λ n. one_if (p g) + n) (total-table p gs)

    -- The numbers of buckets `qs`, as counts of the buckets `all` behind an earlier `acc`.
    abbrev Numbered : ℕ → List (Freqs F) → List (Freqs F) → Type 0
    Numbered acc all [] = Unit
    Numbered acc all (c ∷ qs) =
        ((c.numless ≡ acc + total (λ x. F.less x c.score) all)
          × (c.numlesseq ≡ acc + total (λ x. F.less x c.score || F.same x c.score) all))
        × Numbered acc all qs

    one_earlier :
        (acc : ℕ) (b : Freqs F) (bs qs : List (Freqs F))
        → AllAbove b.score qs
        → Numbered (acc + b.count) bs qs
        → Numbered acc (b ∷ bs) qs
    unfolding AllAbove total
    one_earlier acc b bs [] a n = tt
    one_earlier acc b bs (c ∷ qs) (p, a) ((u, v), n) =
        ((rw p (u ∙ omega arith), rw p (v ∙ omega arith)), one_earlier acc b bs qs a n)

    number_buckets-AllAbove :
        (acc : ℕ) (g : F.Num) (bs : List (Freqs F))
        → AllAbove g bs
        → AllAbove g (number_buckets F acc bs)
    unfolding AllAbove number_buckets
    number_buckets-AllAbove acc g [] a = tt
    number_buckets-AllAbove acc g (b ∷ bs) (p, a) =
        (p, number_buckets-AllAbove (acc + b.count) g bs a)

    not_below : (g h : F.Num) → F.less g h ≡ true → (F.less h g ≡ false) × (F.same h g ≡ false)
    not_below g h l = (
      elim (Bool-cases (F.less h g)) [
        | inr e ↦ e
        | inl e ↦ let t = o.transitive g h g l e in let i = o.irreflexive g in cc
      ],
      elim (Bool-cases (F.same h g)) [
        | inr e ↦ e
        | inl e ↦
            let q = (o.same_iff h g).0 e in
            let t : F.less g g ≡ true = ap (F.less g) (sym q) ∙ l in let i = o.irreflexive g in cc
      ],
    )

    nothing_below :
        (g : F.Num) (bs : List (Freqs F))
        → AllAbove g bs
        → (total (λ x. F.less x g) bs ≡ 0) × (total (λ x. F.less x g || F.same x g) bs ≡ 0)
    unfolding AllAbove total
    nothing_below g [] a = (refl, refl)
    nothing_below g (b ∷ bs) (p, a) =
        let (l, s) = not_below g b.score p in
        let (u, v) = nothing_below g bs a in (rw (l, u) refl, rw (l, s, v) refl)

    numbers :
        (acc : ℕ) (bs : List (Freqs F)) → IsSorted bs → Numbered acc bs (number_buckets F acc bs)
    unfolding IsSorted number_buckets total
    numbers acc [] s = tt
    numbers acc (b ∷ bs) (a, s) =
        let (u, v) = nothing_below b.score bs a in
        let i = o.irreflexive b.score in
        let e = (o.same_iff b.score b.score).1 refl in
        (
          (rw (i, u) (omega arith), rw (i, e, v) (omega arith)),
          one_earlier acc b bs (number_buckets F (acc + b.count) bs)
              (number_buckets-AllAbove (acc + b.count) b.score bs a) (numbers (acc + b.count) bs s),
        )

    -- Every bucket says how many of the grades are below its score, and how many are at most it.
    pub Quantiles : List F.Num → List (Freqs F) → Type 0
    Quantiles gs [] = Unit
    Quantiles gs (c ∷ qs) =
        ((c.numless ≡ how_many (λ x. F.less x c.score) gs)
          × (c.numlesseq ≡ how_many (λ x. F.less x c.score || F.same x c.score) gs))
        × Quantiles gs qs

    Numbered-Quantiles :
        (gs : List F.Num) (qs : List (Freqs F)) → Numbered 0 (table gs) qs → Quantiles gs qs
    unfolding Quantiles
    Numbered-Quantiles gs [] n = tt
    Numbered-Quantiles gs (c ∷ qs) ((u, v), n) =
        let e = total-table (λ x. F.less x c.score) gs in
        let f = total-table (λ x. F.less x c.score || F.same x c.score) gs in
        ((omega arith, omega arith), Numbered-Quantiles gs qs n)

    -- Where the numbers are ordered, any grades that are counted into an empty table leave it
    -- sorted by score, and numbered as do_quantiles numbers it every bucket holds the number of
    -- grades below its score and of grades that are at most its score.
    pub number_buckets-Quantiles :
        (gs : List F.Num) → IsSorted (table gs) × Quantiles gs (number_buckets F 0 (table gs))
    number_buckets-Quantiles gs =
        (table-IsSorted gs, Numbered-Quantiles gs _ (numbers 0 (table gs) (table-IsSorted gs)))
