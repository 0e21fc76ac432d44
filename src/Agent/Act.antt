-- ===== src/Agent/Act.antt =====
-- What internal/agent/agent.go runs on: the state of the agent that an upgrade changes, the disk,
-- the network and the API server; and sequences of steps on them.
use edge_fleet_operator_demo.Base.{ℕ, String, Option, none, some}
use edge_fleet_operator_demo.Agent.Disk.{Disk, Ended, done, failed, died, Exec}
use edge_fleet_operator_demo.Agent.Download.{DownloadOptions, Network}
use edge_fleet_operator_demo.Agent.Fsm.{State, Fsm, TransitionError, to}
use edge_fleet_operator_demo.Agent.Kube.{Transport, DeviceStatus, update_status, stamped}

-- The surroundings of an agent: the network as it answers at the URL of an image, the API server,
-- SHA-256 in hexadecimal, and the texts of errors, by the reason that is reported with them. What
-- the other goroutines do is a part of the API server's world: the generation that the poll loop
-- has stored, and the time.
pub record Setting : Type 1 where
  pub network : Network
  pub transport : Transport
  pub seen_gen : transport.World → ℕ
  pub now : transport.World → String
  pub hash : String → String
  pub error_text : String → String
  pub download : DownloadOptions

-- The fields of Agent that runUpgrade changes, with the worlds that it runs in.
pub record Run (S : Setting) : Type 0 where
  pub fsm : Fsm
  pub last_failed_key : String
  pub disk : Disk
  pub net : S.network.World
  pub api : S.transport.World

-- How a sequence ends: it goes on with a value, the power is lost, or the program panics.
pub data Went (A : Type 0) : Type 0 where
  went : A → Went A
  powerless : Went A
  crashed : Went A

module _ (S : Setting) where
  abbrev pub Act : Type 0 → Type 0
  Act A = Run S → Went A × Run S

module _ {S : Setting} where
  abbrev pub proceed : {A B : Type 0} → Went A × Run S → (A → Act S B) → Went B × Run S
  proceed (went a, s) f = f a s
  proceed (powerless, s) f = (powerless, s)
  proceed (crashed, s) f = (crashed, s)

  abbrev pub pure : {A : Type 0} → A → Act S A
  pure a s = (went a, s)

  abbrev pub crash : {A : Type 0} → Act S A
  crash s = (crashed, s)

  infixl 5 ◌>>=◌ ◌>>◌
  abbrev pub ◌>>=◌ : {A B : Type 0} → Act S A → (A → Act S B) → Act S B
  ◌>>=◌ m f s = proceed (m s) f

  abbrev pub ◌>>◌ : {A B : Type 0} → Act S A → Act S B → Act S B
  m >> k = m >>= λ _. k

  -- A sequence of file calls, of whose error only the presence is used.
  abbrev pub settled : {A : Type 0} → Ended A × Disk → Run S → Went (Option A) × Run S
  settled (done a, d) s = (went (some a), record s { disk = d })
  settled (failed e, d) s = (went none, record s { disk = d })
  settled (died, d) s = (powerless, record s { disk = d })

  abbrev pub on_disk : {A : Type 0} → Exec A → Act S (Option A)
  on_disk m s = settled (m s.disk) s

  -- FSM.To
  abbrev pub move : State → Act S (Option TransitionError)
  move next s = let (e, f) = to next s.fsm in (went e, record s { fsm = f })

module _ (S : Setting) where
  open S use {transport, seen_gen, now}

  -- reportStatus, with the mutation given the generation and the time. Its error is only logged.
  unfoldable pub report_status : (String → DeviceStatus → ℕ → DeviceStatus) → Act S (Unit {0})
  report_status mutate s =
      let (r, w) =
        update_status transport (λ w dev. stamped (mutate (now w)) (seen_gen w) dev) s.api in
      (went tt, record s { api = w })
