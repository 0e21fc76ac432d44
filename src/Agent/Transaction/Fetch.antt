-- ===== src/Agent/Transaction/Fetch.antt =====
-- The download in runUpgrade of internal/agent/agent.go: what it can change.
use edge_fleet_operator_demo.Base.{
  ◌≡◌, ◌≢◌, refl, sym, ◌∙◌, ap, ◌⊎◌, inl, inr, String, false, Option, none, some,
}
use edge_fleet_operator_demo.Agent.Disk.{
  FilePath, slot_dir, in_slot, current_link, current_tmp, staging, Disk, Fault, fine, breaks, dies,
  torn, same_path,
}
use edge_fleet_operator_demo.Agent.Download.{Downloaded, panicked, download_with_resume}
use edge_fleet_operator_demo.Agent.Download.Backoff.{unset_options, download_fine}
use edge_fleet_operator_demo.Agent.Upgrade.Safety.{staging_files}
use edge_fleet_operator_demo.Agent.Act.{Setting, Run, Went, went, powerless, crashed, Act, proceed}
use edge_fleet_operator_demo.Agent.Transaction.{fetching, bytes_of}

-- Only staging files differ.
abbrev pub Beside : Disk → Disk → Type 0
Beside d d2 = (q : FilePath) → staging_files q ≡ false → d2.node q ≡ d.node q

not_staged : (k : String) (q : FilePath) → staging_files q ≡ false → same_path (staging k) q ≡ false
unfolding same_path
not_staged k (slot_dir s) h = refl
not_staged k (in_slot s f) h = refl
not_staged k current_link h = refl
not_staged k current_tmp h = refl
not_staged k (staging s) h = absurd (cc h)

torn-Beside : (k : String) (left : Option String) (d : Disk) → Beside d (torn (staging k) left d)
torn-Beside k none d q h = refl
torn-Beside k (some c) d q h = rw (not_staged k q h) refl

module _ {S : Setting} where
  -- A download changes only its staging file, and does not panic.
  pub record Fetched (s : Run S) (o : Went Downloaded × Run S) : Type 0 where
    pub fsm : o.1.fsm ≡ s.fsm
    pub api : o.1.api ≡ s.api
    pub beside : Beside s.disk o.1.disk
    pub ends : ((r : Downloaded) × (o.0 ≡ went r) × (r ≢ panicked)) ⊎ (o.0 ≡ powerless)

  pub fetching-Fetched :
      (unset : S.download ≡ unset_options) (f : Fault) (k : String) (s : Run S)
      → Fetched s (fetching S f (staging k) s)
  fetching-Fetched unset fine k s = record {
    fsm = refl;
    api = refl;
    beside = λ q h. rw (not_staged k q h) refl;
    ends = inl (
      _,
      refl,
      λ e. download_fine S.network (bytes_of (s.disk.node (staging k))) s.net (
          ap (λ o. (download_with_resume S.network o (bytes_of (s.disk.node (staging k))) s.net).0)
            (sym unset)
          ∙ e),
    );
  }
  fetching-Fetched unset (breaks left) k s = record {
    fsm = refl;
    api = refl;
    beside = torn-Beside k left s.disk;
    ends = inl (_, refl, λ e. cc e);
  }
  fetching-Fetched unset (dies left) k s = record {
    fsm = refl;
    api = refl;
    beside = torn-Beside k left s.disk;
    ends = inr refl;
  }

  pub not_panicked : (s : Run S) (o : Went Downloaded × Run S) → Fetched s o → o.0 ≢ went panicked
  not_panicked s o f is = elim f.ends [ inl (r, e, ne) ↦ ne (cc (e, is)) | inr e ↦ cc (e, is) ]

  pub not_crashed : (s : Run S) (o : Went Downloaded × Run S) → Fetched s o → o.0 ≢ crashed
  not_crashed s o f is = elim f.ends [ inl (r, e, ne) ↦ cc (e, is) | inr e ↦ cc (e, is) ]

  pub proceed_cases :
      {A : Type 0} (o : Went A × Run S) (K : A → Act S (Unit {0}))
      (Q : Went (Unit {0}) × Run S → Type 0)
      → ((a : A) → o.0 ≡ went a → Q (K a o.1))
      → (o.0 ≡ powerless → Q (powerless, o.1))
      → (o.0 ≡ crashed → Q (crashed, o.1))
      → Q (proceed o K)
  proceed_cases (went a, s) K Q g l c = g a refl
  proceed_cases (powerless, s) K Q g l c = l refl
  proceed_cases (crashed, s) K Q g l c = c refl
