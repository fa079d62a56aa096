-- ===== src/Orchestrator/Discovery/Validate/Accounting.antt =====
-- discovery.py: how many observations are written and dropped.
use auditcore.Base.{ℕ, ◌+◌, ◌≡◌, List, [], ◌∷◌, length, length-append, arith}
use auditcore.Base.Text.{Text}
use auditcore.Base.Json.{Value, Runtime}
use auditcore.Base.Error.{OnOk, OnOk-ok, OnOk-bind}
use auditcore.Orchestrator.Rows.{ObservationWrite}
use auditcore.Orchestrator.Discovery.Validate.{
  Verdict, written, dropped, Context, observe, observe_all, tally,
}

abbrev pub total : List ObservationWrite × List Text → ℕ
total (writes, drops) = length writes + length drops

total-tally :
    (v : Verdict) (kept : List ObservationWrite × List Text) → total (tally v kept) ≡ total kept + 1
total-tally (written w) (ws, ds) = omega (arith, length-append ws (w ∷ []))
total-tally (dropped d) (ws, ds) = omega (arith, length-append ds (d ∷ []))

module _ (rt : Runtime) (c : Context) where
  pub observe_all-total :
      (i : ℕ) (raws : List Value) (kept : List ObservationWrite × List Text)
      → OnOk (λ r. total r ≡ total kept + length raws) (observe_all rt c i raws kept)
  unfolding observe_all
  observe_all-total i [] kept = OnOk-ok kept (omega arith)
  observe_all-total i (raw ∷ rest) kept = OnOk-bind (observe rt c i raw) _ λ v _. record {
    at = λ r e.
        omega (arith, (observe_all-total (i + 1) rest (tally v kept)).at r e, total-tally v kept);
  }
