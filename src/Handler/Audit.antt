-- ===== src/Handler/Audit.antt =====
-- internal/handler/audit.go: a request whose metrics were stored is reported to the auditor.
use svcmetrics.Base.{ℕ, String, Bool, true, false, none, some, List, [], ◌∷◌, ◌++◌}
use svcmetrics.Handler.{Request, Codec}

-- One call of Notify.
pub record Notice : Type 0 where
  pub time : ℕ
  pub metrics : List String
  pub ip : String

-- What a handler acts on: the storage, and the calls that the auditor has had. `audited` is false
-- where the auditor is nil.
pub record World (S : Type 0) : Type 0 where
  pub storage : S
  pub audited : Bool
  pub notices : List Notice

unfoldable pub client_ip : {F : Type 0} → Codec F → Request → String
client_ip c r = elim (c.split_host_port r.remote_addr) [ none ↦ r.remote_addr | some host ↦ host ]

abbrev pub report : Bool → Notice → List Notice → List Notice
report true n ns = ns ++ n ∷ []
report false n ns = ns

-- The names that a request reports; an empty list is not reported.
unfoldable pub notify_audit : {S F : Type 0} → Codec F → Request → List String → World S → World S
unfolding client_ip
notify_audit c r [] w = w
notify_audit c r (m ∷ ms) w = record w {
  notices =
      report w.audited (record { time = r.now; metrics = m ∷ ms; ip = client_ip c r }) w.notices;
}
