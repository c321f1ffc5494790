-- ===== src/PanelCore/History/Runs.antt =====
-- Runs of operations on a new history (src/panel-core/src/state.rs).
use app_full.Base.{◌≡◌, refl, Bool, List, [], ◌∷◌}
use app_full.Base.Outcome.{ok}
use app_full.PanelCore.Nav.{NavPath}
use app_full.PanelCore.History.{History, new, record_nav, back, forward, clear}
use app_full.PanelCore.History.Timeline.{
  Timeline, nowhere, IsView, visit, step_back, step_forward, record_nav-IsView, back-IsView,
  forward-IsView,
}

pub data Op : Type 0 where
  record_op : NavPath → Op
  back_op forward_op clear_op : Op

pub apply : Bool → Op → History → History
apply windows (record_op nav) h = record_nav windows nav h
apply windows back_op h = (back h).1
apply windows forward_op h = (forward h).1
apply windows clear_op h = clear h

pub apply_timeline : Bool → Op → Timeline → Timeline
apply_timeline windows (record_op nav) t = visit windows nav t
apply_timeline windows back_op t = (step_back t).1
apply_timeline windows forward_op t = (step_forward t).1
apply_timeline windows clear_op t = nowhere

-- The operations of a run, the last one first.
pub run : Bool → List Op → History
run windows [] = new
run windows (op ∷ ops) = apply windows op (run windows ops)

pub run_timeline : Bool → List Op → Timeline
run_timeline windows [] = nowhere
run_timeline windows (op ∷ ops) = apply_timeline windows op (run_timeline windows ops)

apply-IsView :
    (windows : Bool) (op : Op) (t : Timeline) (h : History)
    → IsView t h
    → IsView (apply_timeline windows op t) (apply windows op h)
unfolding apply apply_timeline
apply-IsView windows (record_op nav) t h v = record_nav-IsView windows nav t h v
apply-IsView windows back_op t h v = (back-IsView t h v).1
apply-IsView windows forward_op t h v = (forward-IsView t h v).1
apply-IsView windows clear_op t h v = unfold clear in (refl, refl)

run-IsView : (windows : Bool) (ops : List Op) → IsView (run_timeline windows ops) (run windows ops)
unfolding run run_timeline
run-IsView windows [] = unfold new in (refl, refl)
run-IsView windows (op ∷ ops) = apply-IsView windows op _ _ (run-IsView windows ops)

-- After any run of the operations the history is the list and the index of the timeline of that
-- run, and `back` and `forward` return what a step on the timeline returns, with no panic.
pub run_lem :
    (windows : Bool) (ops : List Op)
    → IsView (run_timeline windows ops) (run windows ops)
      × ((back (run windows ops)).0 ≡ ok (step_back (run_timeline windows ops)).0)
      × ((forward (run windows ops)).0 ≡ ok (step_forward (run_timeline windows ops)).0)
run_lem windows ops =
    let v = run-IsView windows ops in (v, (back-IsView _ _ v).0, (forward-IsView _ _ v).0)
