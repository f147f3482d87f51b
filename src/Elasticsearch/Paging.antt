-- ===== src/Elasticsearch/Paging.antt =====
-- The bounds of the pagination, from the HTTP parameters to the request for Elasticsearch.
use log_analytics_and_anomal.Prelude.{
  ℕ, zero, suc, ap₂, ◌*◌, ◌≤◌, ◌<◌, ◌^◌, ◌≡◌, refl, ap, ◌∙◌, text, ℤ, pos, negsuc, ◌-ℤ◌, ◌*ℤ◌, ◌≤ℤ◌,
  wrap64, wrap64_of_lt, int_mul_pos, arith,
}
use log_analytics_and_anomal.Domain.{LogQuery}
use log_analytics_and_anomal.Runtime.{Runtime}
use log_analytics_and_anomal.Api.Params.{
  accepted, Query, parse_int_param, parse_time_param, parse_int_param_bounds, >>=-eq-accepted,
}
use log_analytics_and_anomal.Api.Logs.{log_query}
use log_analytics_and_anomal.Elasticsearch.Request.{clamp_page, clamp_size, offset_of}
use log_analytics_and_anomal.Elasticsearch.LogIndexer.{log_request}

-- A page and a size that are in range.
abbrev InRange : ℤ → ℤ → Type 0
InRange page size = (pos 1 ≤ℤ page) × (page ≤ℤ pos 10000) × (pos 1 ≤ℤ size) × (size ≤ℤ pos 1000)

-- Every query that the handler makes of its parameters is in range.
log_query_bounds :
    (rt : Runtime) (params : Query) {q : LogQuery}
    → log_query rt params ≡ accepted q
    → InRange q.page q.size
unfolding log_query
log_query_bounds rt params h =
    let (page, ep, hp) =
      >>=-eq-accepted (parse_int_param params (text "page") (pos 1) (pos 1) (pos 10000)) _ h in
    let (size, es, hs) =
      >>=-eq-accepted (parse_int_param params (text "size") (pos 20) (pos 1) (pos 1000)) _ hp in
    let (from, ef, hf) = >>=-eq-accepted (parse_time_param rt params (text "from")) _ hs in
    let (to, et, ht) = >>=-eq-accepted (parse_time_param rt params (text "to")) _ hf in
    let bp =
      parse_int_param_bounds params (text "page") (pos 1) (pos 1) (pos 10000) (omega arith)
        (omega arith) ep in
    let bs =
      parse_int_param_bounds params (text "size") (pos 20) (pos 1) (pos 1000) (omega arith)
        (omega arith) es in
    ground arith

-- A page and a size in range, as natural numbers.
record Parts (page size : ℤ) (p s : ℕ) : Type 0 where
  page_is : page ≡ pos (suc p)
  size_is : size ≡ pos s
  page_small : p < 10000
  size_pos : 1 ≤ s
  size_small : s ≤ 1000

InRange-Parts : (page size : ℤ) → InRange page size → (p : ℕ) × (s : ℕ) × Parts page size p s
InRange-Parts (pos (suc p)) (pos s) h = (
  p,
  s,
  record {
    page_is = refl;
    size_is = refl;
    page_small = omega arith;
    size_pos = omega arith;
    size_small = omega arith;
  },
)
InRange-Parts (pos zero) size h = absurd (omega arith)
InRange-Parts (negsuc n) size h = absurd (omega arith)
InRange-Parts page (negsuc n) h = absurd (omega arith)

pred_page : (p : ℕ) → pos (suc p) -ℤ pos 1 ≡ pos p
unfolding ◌-ℤ◌
pred_page p = ground arith

product_small : (p s : ℕ) → p < 10000 → s ≤ 1000 → p * s < 2 ^ 63
product_small p s h k = let bound : p * s ≤ 10000 * 1000 = grind arith in omega arith

offset_in_range :
    (p s : ℕ) → p < 10000 → 1 ≤ s → s ≤ 1000 → offset_of (pos (suc p)) (pos s) ≡ pos (p * s)
offset_in_range p s h l k =
    let e : clamp_page (pos (suc p)) ≡ pos (suc p) = ground arith in
    let f : clamp_size (pos s) ≡ pos s = ground arith in
    ap₂ (λ a b. wrap64 ((a -ℤ pos 1) *ℤ b)) e f
    ∙ ap (λ a. wrap64 (a *ℤ pos s)) (pred_page p)
    ∙ ap wrap64 (int_mul_pos p s)
    ∙ wrap64_of_lt (p * s) (product_small p s h k)

-- What the list handler makes of accepted parameters reaches Elasticsearch as it is: with page p + 1
-- of size s the request asks for s hits from p * s on, where p is below 10000 and s from 1 to 1000.
pub log_request_paging :
    (rt : Runtime) (params : Query) {q : LogQuery}
    → log_query rt params ≡ accepted q
    → (p : ℕ) × (s : ℕ) × ((q.page ≡ pos (suc p)) × (p < 10000))
      × ((q.size ≡ pos s) × (1 ≤ s) × (s ≤ 1000))
      × ((log_request q).from ≡ pos (p * s))
      × ((log_request q).size ≡ pos s)
unfolding log_request
log_request_paging rt params {q} h =
    let (p, s, v) = InRange-Parts q.page q.size (log_query_bounds rt params h) in
    (
      p,
      s,
      (v.page_is, v.page_small),
      (v.size_is, v.size_pos, v.size_small),
      ap₂ offset_of v.page_is v.size_is ∙ offset_in_range p s v.page_small v.size_pos v.size_small,
      ap clamp_size v.size_is ∙ ground arith,
    )
