-- ===== src/Riverpool/Withdrawals/ByTime.antt =====
-- x/riverpool/keeper/withdrawal.go: the sort of deposits by their time.
use mathlib.Core.List.{Perm, append-nil, perm_middle}
use mathlib.Core.List.Perm
use perp_dex.Base.{
  ℕ, ◌++◌, ◌≡◌, true, false, List, [], ◌∷◌, ◌≤◌, ltb, Bool-cases, inl, inr, arith, All, All-map,
}
use perp_dex.Riverpool.Types.{Deposit}
use perp_dex.Riverpool.Withdrawals.{insert_by_time, sort_by_time}

-- No deposit comes before an older one.
abbrev pub IsOldestFirst : List Deposit → Type 0
IsOldestFirst [] = Unit
IsOldestFirst (d ∷ ds) = All (λ e. d.deposited_at ≤ e.deposited_at) ds × IsOldestFirst ds

older : (d e : Deposit) → ltb d.deposited_at e.deposited_at ≡ true → d.deposited_at ≤ e.deposited_at
older d e h = ground arith

not_older :
    (d e : Deposit) → ltb d.deposited_at e.deposited_at ≡ false → e.deposited_at ≤ d.deposited_at
not_older d e h = ground arith

trans_le : {a b c : ℕ} → a ≤ b → b ≤ c → a ≤ c
trans_le h k = omega (arith, h, k)

-- What holds of every deposit holds after the insertion.
pub All-insert :
    (P : Deposit → Type 0) (d : Deposit) (ds : List Deposit)
    → P d
    → All P ds
    → All P (insert_by_time d ds)
unfolding insert_by_time
All-insert P d [] h hs = (h, tt)
All-insert P d (e ∷ es) h (k, ks) = elim (Bool-cases (ltb d.deposited_at e.deposited_at)) [
  | inl c ↦ rw c (h, (k, ks))
  | inr c ↦ rw c (k, All-insert P d es h ks)
]

-- The insertion loses nothing and adds nothing else.
insert-Perm : (d : Deposit) (ds : List Deposit) → Perm (insert_by_time d ds) (d ∷ ds)
unfolding insert_by_time
insert-Perm d [] = Perm.refl (d ∷ [])
insert-Perm d (e ∷ es) = elim (Bool-cases (ltb d.deposited_at e.deposited_at)) [
  | inl c ↦ rw c (Perm.refl (d ∷ e ∷ es))
  | inr c ↦ rw c (Perm.trans (Perm.cons e (insert-Perm d es)) (Perm.swap d e es))
]

pub sort-Perm : (sorted ds : List Deposit) → Perm (sort_by_time sorted ds) (sorted ++ ds)
unfolding sort_by_time
sort-Perm sorted [] = rw (append-nil sorted) (Perm.refl sorted)
sort-Perm sorted (d ∷ ds) =
    Perm.trans (sort-Perm (insert_by_time d sorted) ds)
      (Perm.trans (Perm.append_right ds (insert-Perm d sorted)) (Perm.symm (perm_middle sorted ds)))

pub insert-IsOldestFirst :
    (d : Deposit) (ds : List Deposit) → IsOldestFirst ds → IsOldestFirst (insert_by_time d ds)
unfolding insert_by_time
insert-IsOldestFirst d [] h = (tt, tt)
insert-IsOldestFirst d (e ∷ es) (h, hs) = elim (Bool-cases (ltb d.deposited_at e.deposited_at)) [
  | inl c ↦ rw c ((older d e c, All-map _ _ es (λ x k. trans_le (older d e c) k) h), (h, hs))
  | inr c ↦ rw c (All-insert _ d es (not_older d e c) h, insert-IsOldestFirst d es hs)
]
