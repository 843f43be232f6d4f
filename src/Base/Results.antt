-- ===== src/Base/Results.antt =====
-- `Result` as a monad, for chains of `?`.
use soothfast.Base.Options.{Result, ok, err}

infixl 5 ◌>>=◌
abbrev pub ◌>>=◌ : {E A B : Type 0} → Result E A → (A → Result E B) → Result E B
ok a >>= f = f a
err e >>= f = err e
