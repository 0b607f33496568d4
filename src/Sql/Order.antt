-- ===== src/Sql/Order.antt =====
-- `ORDER BY ... DESC` permutes the rows and sorts them.
use mathlib.Core.Bool.{true}
use mathlib.Core.List.{Pairwise, Perm, Pairwise-cons, mem-cons, not-mem-nil}
use mathlib.Core.List.Perm
use mathlib.Core.Logic.Or
use native.Mathlib.Bridge.{le_prop}
use zao_p2p.Prelude.{
  ℕ, ◌≤◌, ◌≡◌, refl, inl, inr, List, [], ◌∷◌, arith, length, suc, ap, ◌∙◌, leb, Bool-cases,
}
use zao_p2p.Sql.{insert_desc, order_by_desc}

module _ {ℓ} {A : Type ℓ} (key : A → ℕ) where
  insert_desc-perm : (r : A) (rows : List A) → Perm (insert_desc key r rows) (r ∷ rows)
  unfolding insert_desc
  insert_desc-perm r [] = Perm.refl _
  insert_desc-perm r (s ∷ rows) = elim (Bool-cases (leb (key s) (key r))) [
    | inl e ↦ rw e (Perm.refl _)
    | inr e ↦ rw e (Perm.trans (Perm.cons s (insert_desc-perm r rows)) (Perm.swap r s rows))
  ]

  pub order_by_desc-perm : (rows : List A) → Perm (order_by_desc key rows) rows
  unfolding order_by_desc
  order_by_desc-perm [] = Perm.refl _
  order_by_desc-perm (r ∷ rows) =
      Perm.trans (insert_desc-perm r (order_by_desc key rows))
        (Perm.cons r (order_by_desc-perm rows))

  length-insert_desc : (r : A) (rows : List A) → length (insert_desc key r rows) ≡ suc (length rows)
  unfolding insert_desc
  length-insert_desc r [] = refl
  length-insert_desc r (s ∷ rows) = ground (arith, length-insert_desc r rows)

  pub length-order_by_desc : (rows : List A) → length (order_by_desc key rows) ≡ length rows
  unfolding order_by_desc
  length-order_by_desc [] = refl
  length-order_by_desc (r ∷ rows) =
      length-insert_desc r (order_by_desc key rows) ∙ ap suc (length-order_by_desc rows)

  abbrev pub IsDescending : List A → Type ℓ
  IsDescending = Pairwise (λ a b. key b ≤ key a)

  insert_desc-IsDescending :
      (r : A) (rows : List A) → IsDescending rows → IsDescending (insert_desc key r rows)
  unfolding insert_desc
  insert_desc-IsDescending r [] h = Pairwise.cons (λ a m. absurd (not-mem-nil m)) h
  insert_desc-IsDescending r (s ∷ rows) h = elim (Bool-cases (leb (key s) (key r))) [
    | inl e ↦ rw e (
        Pairwise.cons
          (λ a m.
            Or.elim le_prop (mem-cons.0 m) (λ q. rw q (ground (arith, e)))
              (λ m'. le_step a ((Pairwise-cons.0 h).0 a m') e))
          h)
    | inr e ↦ rw e (
        Pairwise.cons
          (λ a m.
            Or.elim le_prop (mem-cons.0 ((Perm.mem_iff (insert_desc-perm r rows)).0 m))
              (λ q. rw q (ground (arith, e))) (λ m'. (Pairwise-cons.0 h).0 a m'))
          (insert_desc-IsDescending r rows (Pairwise-cons.0 h).1))
  ]
    where
      le_step : (a : A) → key a ≤ key s → leb (key s) (key r) ≡ true → key a ≤ key r
      le_step a h e = ground (arith, e)

  pub order_by_desc-IsDescending : (rows : List A) → IsDescending (order_by_desc key rows)
  unfolding order_by_desc
  order_by_desc-IsDescending [] = Pairwise.nil
  order_by_desc-IsDescending (r ∷ rows) =
      insert_desc-IsDescending r (order_by_desc key rows) (order_by_desc-IsDescending rows)
