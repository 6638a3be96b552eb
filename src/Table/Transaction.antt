-- ===== src/Table/Transaction.antt =====
-- `with connection:` commits when its body returns and rolls back when it raises.
use mathlib.Core.Path.{◌≡◌, refl}
use softos_sdd_orchestrator.Prelude.Result.{Result, ok, err, ◌>>=◌}

module _ {E A S : Type 0} where
  abbrev pub settle : S → Result E (A × S) → Result E A × S
  settle s (ok (a, s')) = (ok a, s')
  settle s (err e) = (err e, s)

  unfoldable pub transaction : (S → Result E (A × S)) → S → Result E A × S
  transaction body s = settle s (body s)

-- What a body has to show of the state that it would commit.
pub data OnCommit {E A S : Type 0} (P : S → Type 0) : Result E (A × S) → Type 0 where
  commit : {a : A} {s : S} → P s → OnCommit P (ok (a, s))
  rollback : {e : E} → OnCommit P (err e)

module _ {E A S : Type 0} where
  settle_rule :
      {P : S → Type 0} (s : S) {r : Result E (A × S)} → P s → OnCommit P r → P (settle s r).1
  settle_rule s old (commit new) = new
  settle_rule s old rollback = old

  -- A property of the state before a transaction that each commit gives back holds after it.
  pub transaction_rule :
      {P : S → Type 0} (body : S → Result E (A × S)) {s : S}
      → P s
      → OnCommit P (body s)
      → P (transaction body s).1
  unfolding transaction
  transaction_rule body {s} old new = settle_rule s old new

  pub OnCommit-map :
      {P Q : S → Type 0} {r : Result E (A × S)}
      → ((s : S) → P s → Q s)
      → OnCommit P r
      → OnCommit Q r
  OnCommit-map f (commit {s = s} h) = commit (f s h)
  OnCommit-map f rollback = rollback

-- A body that first computes a value or raises.
pub OnCommit-bind :
    {E X A S : Type 0} {P : S → Type 0} (r : Result E X) {f : X → Result E (A × S)}
    → ((x : X) → r ≡ ok x → OnCommit P (f x))
    → OnCommit P (r >>= f)
OnCommit-bind (ok x) h = h x refl
OnCommit-bind (err e) h = rollback
