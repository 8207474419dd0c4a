-- ===== src/Repository/Storage.antt =====
-- internal/repository/storage.go: the contract of a metric backend. A method acts on the state `S`
-- of the backend, a call with a context shows in the error that it returns.
pub mod Memory
use svcmetrics.Base.{String, ◌≡◌, Option, none, some, List, true, get_or, if◌then◌else◌, str_eq}
use svcmetrics.Base.Dict.{Dict, lookup}
use svcmetrics.Base.Word.{Int64, add64}
use svcmetrics.Model.{Metrics}
use svcmetrics.Errors.{Err, Result, ok, err, has, is_not_found}

pub record Storage (S F : Type 0) : Type 0 where
  -- Reader
  pub get_gauge : String → S → Result F × S
  pub get_counter : String → S → Result Int64 × S
  pub get_all_gauges : S → Result (Dict F) × S
  pub get_all_counters : S → Result (Dict Int64) × S
  -- Writer
  pub update_gauge : String → F → S → Result F × S
  pub update_counter : String → Int64 → S → Result Int64 × S
  pub update_batch : List (Metrics F) → S → Option Err × S

-- What the comments of the interface promise of the reads, and of the writes of a single metric, over the
-- metrics that a state holds.
pub record Contract {S F : Type 0} (st : Storage S F) : Type 0 where
  pub gauge_of : S → String → Option F
  pub counter_of : S → String → Option Int64
  pub get_gauge_ok :
      (k : String) (s : S) (v : F) → (st.get_gauge k s).0 ≡ ok v → gauge_of s k ≡ some v
  pub get_gauge_some :
      (k : String) (s : S) (v : F) (e : Err)
      → gauge_of s k ≡ some v
      → (st.get_gauge k s).0 ≡ err e
      → ¬ (has is_not_found e ≡ true)
  pub get_counter_ok :
      (k : String) (s : S) (d : Int64) → (st.get_counter k s).0 ≡ ok d → counter_of s k ≡ some d
  pub get_counter_some :
      (k : String) (s : S) (d : Int64) (e : Err)
      → counter_of s k ≡ some d
      → (st.get_counter k s).0 ≡ err e
      → ¬ (has is_not_found e ≡ true)
  -- GetAllGauges and GetAllCounters return every metric by name.
  pub get_all_gauges_ok :
      (k : String) (s : S) (d : Dict F) → (st.get_all_gauges s).0 ≡ ok d → lookup k d ≡ gauge_of s k
  pub get_all_counters_ok :
      (k : String) (s : S) (d : Dict Int64)
      → (st.get_all_counters s).0 ≡ ok d
      → lookup k d ≡ counter_of s k
  -- UpdateGauge replaces the value and returns the one now stored.
  pub update_gauge_ok :
      (k j : String) (v w : F) (s : S)
      → (st.update_gauge k v s).0 ≡ ok w
      → (w ≡ v)
        × (gauge_of (st.update_gauge k v s).1 j ≡ (if str_eq k j then some v else gauge_of s j))
        × (counter_of (st.update_gauge k v s).1 j ≡ counter_of s j)
  -- UpdateCounter adds to the counter, from zero if needed, and returns the new total.
  pub update_counter_ok :
      (k j : String) (d t : Int64) (s : S)
      → (st.update_counter k d s).0 ≡ ok t
      → (t ≡ add64 (get_or 0 (counter_of s k)) d)
        × (counter_of (st.update_counter k d s).1 j
            ≡ (if str_eq k j then some t else counter_of s j))
        × (gauge_of (st.update_counter k d s).1 j ≡ gauge_of s j)
