-- ===== src/Elasticsearch/Request.antt =====
-- The search requests of log_indexer.go and anomaly_indexer.go, and the client that takes them.
use log_analytics_and_anomal.Prelude.{
  ℕ, ◌*◌, ◌/◌, ◌+◌, Bool, false, ◌&&◌, List, [], ◌∷◌, Option, none, some, Text, text_eq, ℤ, pos,
  negsuc, ◌-ℤ◌, ◌*ℤ◌, wrap64, ltb_ℤ, if◌then◌else◌, ◌==◌,
}
use log_analytics_and_anomal.Domain.{Time}

-- A Term query on a field, or a Range query with its Gte and Lte.
pub data Filter : Type 0 where
  term : Text → Text → Filter
  date_range : Text → Option Time → Option Time → Filter

pub record SearchRequest : Type 0 where
  pub index : Text
  pub filters : List Filter
  pub from : ℤ
  pub size : ℤ

-- `if v != "" { filters = append(filters, …) }`
abbrev pub term_if : Text → Text → List Filter
term_if field v = if text_eq v [] then [] else term field v ∷ []

abbrev is_zero : Time → Bool
is_zero (pos n) = n == 0
is_zero (negsuc n) = false

-- t.UTC().Format(time.RFC3339) as the instant that it denotes: the fraction of a second is cut off.
abbrev whole_second : Time → Time
whole_second (pos n) = pos (n / 1000000000 * 1000000000)
whole_second (negsuc n) = negsuc (n / 1000000000 * 1000000000 + 999999999)

abbrev bound_if : Time → Option Time
bound_if t = if is_zero t then none else some (whole_second t)

abbrev pub range_if : Text → Time → Time → List Filter
range_if field from to =
    if is_zero from && is_zero to then [] else date_range field (bound_if from) (bound_if to) ∷ []

abbrev pub clamp_page : ℤ → ℤ
clamp_page page = if ltb_ℤ page (pos 1) then pos 1 else page

abbrev pub clamp_size : ℤ → ℤ
clamp_size size =
    let s = if ltb_ℤ size (pos 1) then pos 20 else size in
    if ltb_ℤ (pos 1000) s then pos 1000 else s

-- (page - 1) * size, on int
abbrev pub offset_of : ℤ → ℤ → ℤ
offset_of page size = wrap64 ((clamp_page page -ℤ pos 1) *ℤ clamp_size size)

-- A hit: its _id, if there is one, and its _source.
pub record Hit : Type 0 where
  pub doc_id : Option Text
  pub body : List ℕ

pub record SearchAnswer : Type 0 where
  pub total : Option ℤ
  pub hits : List Hit

-- The client: what a search and a lookup by document ID return; none is an error.
pub record Client : Type 0 where
  pub search : SearchRequest → Option SearchAnswer
  pub search_ids : Text → Text → Option SearchAnswer
  pub get_doc : Text → Text → Option (Option Hit)

abbrev pub total_of : Option ℤ → ℤ
total_of none = pos 0
total_of (some n) = n
