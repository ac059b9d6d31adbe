-- ===== src/Api/Action.antt =====
-- Asynchronous functions as actions on a state: an action returns or throws, and what it wrote
-- before it threw stays written. Nothing else runs between two awaits of one call.
use corpershub_application.Base.{ℕ, Text}
use corpershub_application.Api.Json.{Json}

-- `ApiError`, the error of a dead session, a request without an answer, and malformed JSON.
pub data Failure : Type 0 where
  api : (message : Text) → (status : ℕ) → (body : Json) → Failure
  expired network syntax : Failure

pub data Result {ℓ} (A : Type ℓ) : Type ℓ where
  ok : A → Result A
  err : Failure → Result A

abbrev pub Action {ℓ} : Type ℓ → Type ℓ → Type ℓ
Action S A = S → Result A × S

module _ {ℓ} {S A : Type ℓ} where
  abbrev pub pure : A → Action S A
  pure a s = (ok a, s)

  abbrev pub throw : Failure → Action S A
  throw e s = (err e, s)

  abbrev pub recover : Result A × S → (Failure → Action S A) → Result A × S
  recover (ok a, s) handler = (ok a, s)
  recover (err e, s) handler = handler e s

  -- `try { m } catch { … }`
  abbrev pub catch : Action S A → (Failure → Action S A) → Action S A
  catch m handler s = recover (m s) handler

module _ {ℓ} {S A B : Type ℓ} where
  abbrev pub continue : Result A × S → (A → Action S B) → Result B × S
  continue (ok a, s) f = f a s
  continue (err e, s) f = (err e, s)

  infixl 10 ◌>>=◌ ◌>>◌
  abbrev pub ◌>>=◌ : Action S A → (A → Action S B) → Action S B
  ◌>>=◌ m f s = continue (m s) f

  abbrev pub ◌>>◌ : Action S A → Action S B → Action S B
  m >> n = m >>= λ _. n
