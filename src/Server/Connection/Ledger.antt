-- ===== src/Server/Connection/Ledger.antt =====
-- The jobs that a connection has the scheduler admit, and what becomes of each.
use rust_build_server.Prelude.{
  ℕ, ◌+◌, ◌≡◌, refl, sym, true, false, List, [], ◌∷◌, ◌++◌, Option, none, some, ◌==◌, if◌then◌else◌,
  inl, inr, Bool-cases, Option-cases, Result-cases, arith,
}
use mathlib.Core.Path.{subst}
use rust_build_server.Proto.Job.{JobId, JobRequest, JobEvent, rejected, is_terminal}
use rust_build_server.Proto.Message.{ClientMessage, ServerMessage, event}
use rust_build_server.Proto.Message
use rust_build_server.Server.Scheduler.{Decision, accept, queue, reject_saturated}
use rust_build_server.Server.Connection.{
  Active, no_job, waiting, running, Answers, Taken, received, read_error, released, job_event, Turn,
  Effect, wrote, admitted, launched, launch_failed, scheduler_dropped, dequeued, Flow, goes_on,
  returns, fails, Stepped, write, write_error, send_event, start_job, decided, submit_idle,
  handle_submit, not_active, handle_cancel, handle_msg, forward, take_up, cleanup, Rounds, go_on,
  rounds, rounds-none, rounds-some, serve,
}

-- That the scheduler takes the job.
unfoldable admits : JobId → Effect → ℕ
admits id (admitted i) = if i == id then 1 else 0
admits id e = 0

-- That the connection hands it on: to the runner, which may refuse it, or back to the scheduler, or learns
-- that the scheduler has dropped it.
unfoldable settles : JobId → Effect → ℕ
settles id (launched i) = if i == id then 1 else 0
settles id (launch_failed i) = if i == id then 1 else 0
settles id (scheduler_dropped i) = if i == id then 1 else 0
settles id (dequeued i) = if i == id then 1 else 0
settles id e = 0

abbrev tally : (Effect → ℕ) → List Effect → ℕ
tally f [] = 0
tally f (e ∷ es) = f e + tally f es

tally-append : (f : Effect → ℕ) (a b : List Effect) → tally f (a ++ b) ≡ tally f a + tally f b
tally-append f [] b = omega arith
tally-append f (e ∷ a) b = omega (arith, tally-append f a b)

-- How often it takes it, and how often the connection hands it on.
unfoldable pub admissions : JobId → List Effect → ℕ
unfolding admits
admissions id es = tally (admits id) es

unfoldable pub settlements : JobId → List Effect → ℕ
unfolding settles
settlements id es = tally (settles id) es

-- Whether the job waits.
abbrev held : JobId → Active → ℕ
held id (waiting i req) = if i == id then 1 else 0
held id active = 0

abbrev Balanced : JobId → Active → List Effect → Active → Type 0
Balanced id before effects after =
    admissions id effects + held id before ≡ settlements id effects + held id after

admissions-append :
    (id : JobId) (a b : List Effect) → admissions id (a ++ b) ≡ admissions id a + admissions id b
unfolding admissions
admissions-append id = tally-append (admits id)

settlements-append :
    (id : JobId) (a b : List Effect) → settlements id (a ++ b) ≡ settlements id a + settlements id b
unfolding settlements
settlements-append id = tally-append (settles id)

Balanced-append :
    (id : JobId) (a b : List Effect) (before mid after : Active)
    → Balanced id before a mid
    → Balanced id mid b after
    → Balanced id before (a ++ b) after
Balanced-append id a b before mid after h k =
    omega (arith, admissions-append id a b, settlements-append id a b, h, k)

abbrev Balances : JobId → Active → Stepped → Type 0
Balances id before s = Balanced id before s.effects s.active

write-Balances :
    (id : JobId) (w : Answers) (before active : Active) (effects : List Effect) (m : ServerMessage)
    → Balanced id before effects active
    → Balances id before (write w active effects m)
unfolding write admissions settlements
write-Balances id w before active effects m h = elim (Bool-cases w.writable) [
  | inl can ↦ rw can (Balanced-append id effects (wrote m ∷ []) before active active h refl)
  | inr cannot ↦ rw cannot h
]

start_job-Balances :
    (id : JobId) (w : Answers) (i : JobId) (effects : List Effect) (before : Active)
    → admissions id effects + held id before ≡ settlements id effects + (if i == id then 1 else 0)
    → Balances id before (start_job w i effects)
unfolding start_job send_event admissions settlements
start_job-Balances id w i effects before h = elim (Result-cases w.spawned) [
  | inl (process, spawned) ↦ rw spawned (
      omega (
        arith,
        h,
        admissions-append id effects (launched i ∷ []),
        settlements-append id effects (launched i ∷ []),
      ))
  | inr (reason, refused) ↦ rw refused (
      write-Balances id w before no_job (effects ++ launch_failed i ∷ [])
        (event (rejected i reason))
        (omega (
          arith,
          h,
          admissions-append id effects (launch_failed i ∷ []),
          settlements-append id effects (launch_failed i ∷ []),
        )))
]

decided-Balances :
    (id : JobId) (w : Answers) (req : JobRequest) (i : JobId) (d : Decision)
    → Balances id no_job (decided w req i d)
unfolding decided send_event admissions settlements
decided-Balances id w req i accept =
    start_job-Balances id w i (admitted i ∷ []) no_job (omega arith)
decided-Balances id w req i (queue position) =
    write-Balances id w no_job (waiting i req) (admitted i ∷ []) _ (omega arith)
decided-Balances id w req i reject_saturated = write-Balances id w no_job no_job [] _ refl

reply-Balances :
    (id : JobId) (w : Answers) (active : Active) (m : ServerMessage)
    → Balances id active (write w active [] m)
unfolding admissions settlements
reply-Balances id w active m = write-Balances id w active active [] m refl

handle_submit-Balances :
    (id : JobId) (w : Answers) (active : Active) (req : JobRequest)
    → Balances id active (handle_submit w active req)
unfolding handle_submit submit_idle send_event write_error
handle_submit-Balances id w no_job req = elim (Result-cases w.cwd_check) [
  | inr (reason, refused) ↦ rw refused (reply-Balances id w no_job _)
  | inl (_, found) ↦ elim (Result-cases w.toolchain_check) [
    | inr (reason, refused) ↦ rw (found, refused) (reply-Balances id w no_job _)
    | inl (_, same) ↦ rw (found, same) (decided-Balances id w req w.next_id w.decision)
  ]
]
handle_submit-Balances id w (waiting i r) req = reply-Balances id w (waiting i r) _
handle_submit-Balances id w (running i events) req = reply-Balances id w (running i events) _

handle_cancel-Balances :
    (id : JobId) (w : Answers) (active : Active) (i : JobId)
    → Balances id active (handle_cancel w active i)
unfolding handle_cancel not_active write_error send_event admissions settlements
handle_cancel-Balances id w no_job i = reply-Balances id w no_job _
handle_cancel-Balances id w (waiting j req) i = elim (Bool-cases (j == i)) [
  | inl same ↦
      rw same
        (write-Balances id w (waiting j req) no_job (dequeued i ∷ []) _ (ground (arith, same)))
  | inr other ↦ rw other (reply-Balances id w (waiting j req) _)
]
handle_cancel-Balances id w (running j events) i = elim (Bool-cases (j == i)) [
  | inl same ↦ rw same refl
  | inr other ↦ rw other (reply-Balances id w (running j events) _)
]

handle_msg-Balances :
    (id : JobId) (w : Answers) (active : Active) (m : ClientMessage)
    → Balances id active (handle_msg w active m)
unfolding handle_msg write_error
handle_msg-Balances id w active (Message.hello version) = reply-Balances id w active _
handle_msg-Balances id w active Message.status = reply-Balances id w active _
handle_msg-Balances id w active (Message.submit req) = handle_submit-Balances id w active req
handle_msg-Balances id w active (Message.cancel i) = handle_cancel-Balances id w active i

forward-Balances :
    (id : JobId) (w : Answers) (i : JobId) (events : List JobEvent)
    → Balances id (running i events) (forward w i events)
unfolding forward admissions settlements
forward-Balances id w i [] = refl
forward-Balances id w i (ev ∷ events) = elim (Bool-cases w.writable) [
  | inr cannot ↦ rw cannot refl
  | inl can ↦ elim (Bool-cases (is_terminal ev)) [
    | inl last ↦ rw (can, last) refl
    | inr more ↦ rw (can, more) refl
  ]
]

abbrev OfferBalances : JobId → Active → Option Stepped → Type 0
OfferBalances id active none = Unit
OfferBalances id active (some s) = Balances id active s

take_up-Balances :
    (id : JobId) (w : Answers) (active : Active) (taken : Taken)
    → OfferBalances id active (take_up w active taken)
unfolding take_up send_event admissions settlements
take_up-Balances id w active (received none) = refl
take_up-Balances id w active (received (some m)) = handle_msg-Balances id w active m
take_up-Balances id w active read_error = refl
take_up-Balances id w (waiting i req) (released true) =
    start_job-Balances id w i [] (waiting i req) refl
take_up-Balances id w (waiting i req) (released false) =
    write-Balances id w (waiting i req) no_job (scheduler_dropped i ∷ []) _ (omega arith)
take_up-Balances id w (running i events) job_event = forward-Balances id w i events
take_up-Balances id w no_job (released sent) = tt
take_up-Balances id w no_job job_event = tt
take_up-Balances id w (waiting i req) job_event = tt
take_up-Balances id w (running i events) (released sent) = tt

go_on-Balanced :
    (id : JobId) (before active : Active) (effects : List Effect) (flow : Flow) (rest : Rounds)
    → Balanced id before effects active
    → Balanced id active rest.effects rest.active
    → let r = go_on (record { active = active; effects = effects; flow = flow }) rest in
      Balanced id before r.effects r.active
unfolding go_on
go_on-Balanced id before active effects goes_on rest h later =
    Balanced-append id effects rest.effects before active rest.active h later
go_on-Balanced id before active effects returns rest h later = h
go_on-Balanced id before active effects fails rest h later = h

rounds-Balanced :
    (id : JobId) (active : Active) (turns : List Turn)
    → Balanced id active (rounds active turns).effects (rounds active turns).active
unfolding rounds admissions settlements
rounds-Balanced id active [] = refl
rounds-Balanced id active (t ∷ turns) = elim (Option-cases (take_up t.answers active t.taken)) [
  | inl passed ↦
      subst (λ r. Balanced id active r.effects r.active) (sym (rounds-none active t turns passed))
        (rounds-Balanced id active turns)
  | inr (s, e) ↦
      let one =
        subst (λ o. OfferBalances id active o) e (take_up-Balances id t.answers active t.taken) in
      subst (λ r. Balanced id active r.effects r.active) (sym (rounds-some active t turns s e))
        (go_on-Balanced id active s.active s.effects s.flow (rounds s.active turns) one
          (rounds-Balanced id s.active turns))
]

cleanup-Balanced : (id : JobId) (active : Active) → Balanced id active (cleanup active) no_job
unfolding cleanup admissions settlements
cleanup-Balanced id no_job = refl
cleanup-Balanced id (waiting i req) = omega arith
cleanup-Balanced id (running i events) = refl

-- However a connection goes and ends, with every order of turns, every answer and every failure of a write:
-- each job is handed on as often as the scheduler has admitted it, that is launched, refused by the
-- runner (which gives the slot back), withdrawn from the queue, or known to have been dropped. None that
-- was admitted is left.
pub serve-settles :
    (id : JobId) (turns : List Turn)
    → admissions id (serve turns).effects ≡ settlements id (serve turns).effects
unfolding serve
serve-settles id turns =
    let r = rounds no_job turns in
    omega (
      arith,
      Balanced-append id r.effects (cleanup r.active) no_job r.active no_job
          (rounds-Balanced id no_job turns) (cleanup-Balanced id r.active),
    )
