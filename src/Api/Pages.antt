-- ===== src/Api/Pages.antt =====
-- The answers of the list and lookup handlers, branch by branch.
use log_analytics_and_anomal.Prelude.{
  ◌≡◌, refl, ap, ◌∙◌, Bool, true, false, ◌&&◌, ◌||◌, not, Option, none, some, Text, text, text_eq,
  ℤ, pos, arith, ◌==◌, [],
}
use log_analytics_and_anomal.Domain.{LogQuery, AnomalyQuery, Time}
use log_analytics_and_anomal.Runtime.{Runtime, atoi}
use log_analytics_and_anomal.Api.Params.{
  Checked, accepted, refused, ◌>>=◌, Query, get, parse_int_param, parse_time_param,
}
use log_analytics_and_anomal.Api.Logs.{LogStore, log_query, handle_list_logs, list_logs_with}
use log_analytics_and_anomal.Api.Anomalies.{
  AnomalyStore, anomaly_query, handle_list_anomalies, list_anomalies_with,
}

abbrev is_none {ℓ} : {A : Type ℓ} → Option A → Bool
is_none none = true
is_none (some a) = false

-- A parameter that is given and does not parse.
abbrev bad_int : Query → Text → Bool
bad_int q name = not (text_eq (get q name) []) && is_none (atoi (get q name))

abbrev bad_time : Runtime → Query → Text → Bool
bad_time rt q name = not (text_eq (get q name) []) && is_none (rt.parse_rfc3339 (get q name))

abbrev bad_params : Runtime → Query → Bool
bad_params rt q =
    bad_int q (text "page")
    || bad_int q (text "size")
    || bad_time rt q (text "from")
    || bad_time rt q (text "to")

abbrev is_refused {ℓ} : {A : Type ℓ} → Checked A → Bool
is_refused (accepted a) = false
is_refused (refused e) = true

is_refused->>= {ℓ κ} :
    {A : Type ℓ} {B : Type κ} (m : Checked A) (f : A → Checked B) (b : Bool)
    → ((a : A) → is_refused (f a) ≡ b)
    → is_refused (m >>= f) ≡ (is_refused m || b)
is_refused->>= (accepted a) f b h = h a
is_refused->>= (refused e) f b h = refl

int_err :
    (q : Query) (name : Text) (d lo hi : ℤ)
    → is_refused (parse_int_param q name d lo hi) ≡ bad_int q name
unfolding parse_int_param
int_err q name d lo hi = ground arith

time_err :
    (rt : Runtime) (q : Query) (name : Text)
    → is_refused (parse_time_param rt q name) ≡ bad_time rt q name
unfolding parse_time_param
time_err rt q name = ground arith

-- Four parameters checked in turn, whatever is made of them.
four_checks :
    (rt : Runtime) (q : Query) {B : Type 0} (f : ℤ → ℤ → Time → Time → B)
    → is_refused (do
      page ← parse_int_param q (text "page") (pos 1) (pos 1) (pos 10000)
      size ← parse_int_param q (text "size") (pos 20) (pos 1) (pos 1000)
      from ← parse_time_param rt q (text "from")
      to ← parse_time_param rt q (text "to")
      accepted (f page size from to))
      ≡ bad_params rt q
four_checks rt q f =
    is_refused->>= (parse_int_param q (text "page") (pos 1) (pos 1) (pos 10000)) _
      (bad_int q (text "size")
        || (bad_time rt q (text "from") || (bad_time rt q (text "to") || false)))
      (λ page.
        is_refused->>= (parse_int_param q (text "size") (pos 20) (pos 1) (pos 1000)) _
          (bad_time rt q (text "from") || (bad_time rt q (text "to") || false))
          (λ size.
            is_refused->>= (parse_time_param rt q (text "from")) _
              (bad_time rt q (text "to") || false)
              (λ from.
                is_refused->>= (parse_time_param rt q (text "to")) _ false (λ to. refl)
                ∙ ap (λ b. b || false) (time_err rt q (text "to")))
            ∙ ap (λ b. b || (bad_time rt q (text "to") || false)) (time_err rt q (text "from")))
        ∙ ap (λ b. b || (bad_time rt q (text "from") || (bad_time rt q (text "to") || false)))
            (int_err q (text "size") (pos 20) (pos 1) (pos 1000)))
    ∙ ap
        (λ b.
          b
          || (bad_int q (text "size")
              || (bad_time rt q (text "from") || (bad_time rt q (text "to") || false))))
        (int_err q (text "page") (pos 1) (pos 1) (pos 10000))
    ∙ regroup (bad_int q (text "page")) (bad_int q (text "size")) (bad_time rt q (text "from"))
        (bad_time rt q (text "to"))
  where
    regroup : (a b c d : Bool) → (a || (b || (c || (d || false)))) ≡ (a || b || c || d)
    regroup a b c d = ground arith

logs_status :
    (store : LogStore) (r : Checked LogQuery)
    → ((list_logs_with store r).status == 400) ≡ is_refused r
logs_status store (refused e) = refl
logs_status store (accepted q) = ground arith

anomalies_status :
    (store : AnomalyStore) (r : Checked AnomalyQuery)
    → ((list_anomalies_with store r).status == 400) ≡ is_refused r
anomalies_status store (refused e) = refl
anomalies_status store (accepted q) = ground arith

-- Whatever the stores answer, both list handlers answer 400 exactly when page or size is given and
-- is no integer, or from or to is given and is no RFC 3339 time.
pub list_handlers_bad_request :
    (rt : Runtime) (logs : LogStore) (anomalies : AnomalyStore) (q : Query)
    → (((handle_list_logs rt logs q).status == 400) ≡ bad_params rt q)
      × (((handle_list_anomalies rt anomalies q).status == 400) ≡ bad_params rt q)
unfolding handle_list_logs handle_list_anomalies log_query anomaly_query
list_handlers_bad_request rt logs anomalies q = (
  logs_status logs (log_query rt q) ∙ four_checks rt q _,
  anomalies_status anomalies (anomaly_query rt q) ∙ four_checks rt q _,
)
