-- ===== src/Riverpool/Nav/Guard.antt =====
-- x/riverpool/types/types.go: how the value per share, the high water mark and the drawdown guard
-- of a pool go together.
use perp_dex.Base.{◌≡◌, refl, Bool, true, false, Bool-cases, inl, inr, arith}
use perp_dex.Base.Int.{◌≤ℤ◌}
use perp_dex.Decimal.{LegacyDec, one_dec, gte, is_zero, Rounding}
use perp_dex.Riverpool.Types.{
  Pool, is_active, halt_threshold, level_of_drawdown, update_dd_guard_level, mark_nav, update_nav,
}

-- The value per share is at most the high water mark, which is at least the first value of one, and
-- the level is that of the drawdown.
pub record IsMarked (p : Pool) : Type 0 where
  pub mark_start : one_dec ≤ℤ p.high_water_mark
  pub nav_le : p.nav ≤ℤ p.high_water_mark
  pub level_eq : p.dd_guard_level ≡ level_of_drawdown p.current_drawdown

-- What an update of the value does.
pub record Marks (p q : Pool) : Type 0 where
  pub marked : IsMarked q
  pub mark_grows : p.high_water_mark ≤ℤ q.high_water_mark
  pub halts :
      is_zero p.total_shares ≡ false
      → gte q.current_drawdown halt_threshold ≡ true
      → is_active q.status ≡ false

mark_nav-le :
    (r : Rounding) (nav : LegacyDec) (p : Pool)
    → one_dec ≤ℤ p.high_water_mark
    → (one_dec ≤ℤ (mark_nav r nav p).high_water_mark)
      × ((mark_nav r nav p).nav ≤ℤ (mark_nav r nav p).high_water_mark)
      × (p.high_water_mark ≤ℤ (mark_nav r nav p).high_water_mark)
unfolding mark_nav
mark_nav-le r nav p h = (ground arith, ground arith, ground arith)

not_both : (b : Bool) → b ≡ true → b ≡ false → ⊥
not_both b h k = ground arith

halted :
    (p : Pool)
    → gte p.current_drawdown halt_threshold ≡ true
    → is_active (update_dd_guard_level p).status ≡ false
unfolding update_dd_guard_level
halted p h = rw h refl

-- The update keeps a marked pool marked, never lowers the high water mark, and leaves no pool that
-- has shares active at a drawdown of 30% or more.
pub update_nav-Marks :
    (r : Rounding) (total_value : LegacyDec) (p : Pool)
    → IsMarked p
    → Marks p (update_nav r total_value p)
unfolding update_nav update_dd_guard_level
update_nav-Marks r total_value p m = elim (Bool-cases (is_zero p.total_shares)) [
  | inl e ↦ rw e (record {
    marked = record { mark_start = m.mark_start; nav_le = m.mark_start; level_eq = m.level_eq };
    mark_grows = omega arith;
    halts = λ h k. elim (not_both (is_zero p.total_shares) e h) [ ];
  })
  | inr e ↦
      let q = mark_nav r (r.quo total_value p.total_shares) p in
      let le = mark_nav-le r (r.quo total_value p.total_shares) p m.mark_start in
      rw e (record {
        marked = record { mark_start = le.0; nav_le = le.1; level_eq = refl };
        mark_grows = le.2;
        halts = λ h k. halted q k;
      })
]
