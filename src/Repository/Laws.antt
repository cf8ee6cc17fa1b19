-- ===== src/Repository/Laws.antt =====
-- What the clients of `Storage` rely on: reads find the last gauge written and the sum of a
-- counter's amounts, and no method fails. `MemStorage` keeps these laws; a storage that can fail
-- keeps them only while its file system or its database does not.
use metrics_alerting_service.Prelude.{
  ◌+◌, ◌%◌, ◌^◌, String, ◌≡◌, Option, none, some, ◌==◌, if◌then◌else◌, or_else,
}
use metrics_alerting_service.Model.{Float64, Int64}
use metrics_alerting_service.Repository.{Storage}

pub record IsLawful {S : Type 0} (st : Storage S) : Type 0 where
  pub gauge_at : S → String → Option Float64
  pub counter_at : S → String → Option Int64
  pub get_gauge_lem : (k : String) (s : S) → st.get_gauge k s ≡ (gauge_at s k, s)
  pub get_counter_lem : (k : String) (s : S) → st.get_counter k s ≡ (counter_at s k, s)
  pub update_gauge_ok : (k : String) (v : Float64) (s : S) → (st.update_gauge k v s).0 ≡ none
  pub update_counter_ok : (k : String) (d : Int64) (s : S) → (st.update_counter k d s).0 ≡ none
  pub gauge-update_gauge :
      (k j : String) (v : Float64) (s : S)
      → gauge_at (st.update_gauge k v s).1 j ≡ (if k == j then some v else gauge_at s j)
  pub counter-update_gauge :
      (k j : String) (v : Float64) (s : S) → counter_at (st.update_gauge k v s).1 j ≡ counter_at s j
  pub gauge-update_counter :
      (k j : String) (d : Int64) (s : S) → gauge_at (st.update_counter k d s).1 j ≡ gauge_at s j
  pub counter-update_counter :
      (k j : String) (d : Int64) (s : S)
      → counter_at (st.update_counter k d s).1 j
        ≡ (if k == j then some ((or_else (counter_at s k) 0 + d) % 2 ^ 64) else counter_at s j)
