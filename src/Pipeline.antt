-- ===== src/Pipeline.antt =====
-- parser/internal/pipeline/pipeline.go: the observers of a new report, run in order.
use dmarcparser.Base.{◌≡◌, refl, List, [], ◌∷◌, ◌++◌}
use dmarcparser.Report.{Report}
use dmarcparser.Store.Reports.{SaveResult}
use dmarcparser.Text.{Bytes}

pub record IngestEvent : Type 0 where
  pub report : Report
  pub result : SaveResult
  pub source : Bytes

-- How a call of an observer ends, with the state of the process that it leaves.
pub data Ending {ℓ} (S : Type ℓ) : Type ℓ where
  returned panicked : S → Ending S

module _ {ℓ} {S : Type ℓ} where
  -- `emitOne`: `recover` turns a panic into a log entry
  unfoldable pub emit_one : (IngestEvent → S → Ending S) → IngestEvent → S → S
  emit_one o ev s = elim (o ev s) [ returned s' ↦ s' | panicked s' ↦ s' ]

  unfoldable pub emit : List (IngestEvent → S → Ending S) → IngestEvent → S → S
  unfolding emit_one
  emit [] ev s = s
  emit (o ∷ os) ev s = emit os ev (emit_one o ev s)

  -- `Register` appends
  unfoldable pub register :
      List (IngestEvent → S → Ending S)
      → (IngestEvent → S → Ending S)
      → List (IngestEvent → S → Ending S)
  register os o = os ++ o ∷ []

  -- An observer registered last runs last, on what the others left, whether or not they panicked;
  -- and its own panic keeps what it did before it.
  emit-register :
      (os : List (IngestEvent → S → Ending S)) (o : IngestEvent → S → Ending S) (ev : IngestEvent)
      (s : S)
      → emit (register os o) ev s ≡ emit_one o ev (emit os ev s)
  unfolding emit register
  emit-register [] o ev s = refl
  emit-register (x ∷ os) o ev s = emit-register os o ev (emit_one x ev s)
