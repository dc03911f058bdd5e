-- ===== src/Base/Outcome.antt =====
-- How a call that writes the store `S` ends, for the keepers of all modules: with a value, with an
-- error after it has written the store, or in a panic.

pub data Outcome (S A : Type 0) : Type 0 where
  done : A → Outcome S A
  failed : S → Outcome S A
  panicked : Outcome S A

infixl 5 ◌>>=◌
abbrev pub ◌>>=◌ : {S A B : Type 0} → Outcome S A → (A → Outcome S B) → Outcome S B
done a >>= f = f a
failed s >>= f = failed s
panicked >>= f = panicked

infixl 5 ◌>>◌
abbrev pub ◌>>◌ : {S A B : Type 0} → Outcome S A → Outcome S B → Outcome S B
done a >> m = m
failed s >> m = failed s
panicked >> m = panicked
