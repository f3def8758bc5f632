-- ===== src/Resolve.antt =====
-- The service of src/srvc_resolve.c, which asks the server for the users that names stand for: its
-- messages, with struct mwResolveMatch and struct mwResolveResult of src/mw_srvc_resolve.h.
pub mod Run
pub mod Laws
use meanwhile.Base.{
  ℕ, zero, suc, ◌+◌, ◌%◌, ◌^◌, ◌<◌, Bool, true, false, none, some, List, [], ◌∷◌, ◌++◌, length,
  ◌==◌, if◌then◌else◌, All,
}
use meanwhile.Buffer.Put.{Put, ◌>>◌, skip}
use meanwhile.Buffer.Get.{Get, ◌>>=◌, pure}
use meanwhile.Basic.{Str, guint32_put, guint32_get, string_put, string_get}
use meanwhile.Basic.Wire.{wire32, wire_str, IsWord32, IsStr}

pub record ResolveMatch : Type 0 where
  pub id : Str
  pub name : Str
  pub desc : Str
  pub type_ : ℕ

pub record ResolveResult : Type 0 where
  pub code : ℕ
  pub name : Str
  pub matches : List ResolveMatch

-- while(count--), which appends to the list, also after an error. The fields are those of a zeroed
-- struct.
unfoldable pub load_matches : ℕ → List ResolveMatch → Get (List ResolveMatch)
load_matches zero matches = pure matches
load_matches (suc count) matches = do
  id ← string_get
  name ← string_get
  desc ← string_get
  type_ ← guint32_get 0
  load_matches count (matches ++ (record { id = id; name = name; desc = desc; type_ = type_ } ∷ []))

-- `uninit` is what the variables `junk` and `matches` hold before they are read.
unfoldable pub load_results : ℕ → ℕ → List ResolveResult → Get (List ResolveResult)
load_results uninit zero results = pure results
load_results uninit (suc count) results = do
  junk ← guint32_get uninit
  code ← guint32_get 0
  name ← string_get
  matches ← guint32_get uninit
  found ← load_matches matches []
  load_results uninit count (results ++ (record { code = code; name = name; matches = found } ∷ []))

-- The four numbers in front of the results; the first is not used.
pub record AnswerHead : Type 0 where
  pub id : ℕ
  pub code : ℕ
  pub count : ℕ

unfoldable pub answer_head_get : ℕ → Get AnswerHead
answer_head_get uninit = do
  junk ← guint32_get uninit
  id ← guint32_get uninit
  code ← guint32_get uninit
  count ← guint32_get uninit
  pure (record { id = id; code = code; count = count })

-- for(; queries; queries = queries->next) mwString_put(b, queries->data);
unfoldable pub queries_put : List Str → Put
queries_put [] = skip
queries_put (q ∷ qs) = do string_put q; queries_put qs

-- The request of mwServiceResolve_resolve; `count` is an int.
unfoldable pub request_put : ℕ → List Str → ℕ → Put
request_put id queries flags = do
  guint32_put 0
  guint32_put id
  guint32_put (length queries)
  queries_put queries
  guint32_put flags

-- What the server answers.
unfoldable pub wire_match : ResolveMatch → List ℕ
wire_match m = wire_str m.id ++ (wire_str m.name ++ (wire_str m.desc ++ wire32 m.type_))

unfoldable pub wire_matches : List ResolveMatch → List ℕ
wire_matches [] = []
wire_matches (m ∷ ms) = wire_match m ++ wire_matches ms

unfoldable pub wire_results : List ResolveResult → List ℕ
wire_results [] = []
wire_results (r ∷ rs) =
    (wire32 0
      ++ (wire32 r.code
          ++ (wire_str r.name ++ (wire32 (length r.matches) ++ wire_matches r.matches))))
    ++ wire_results rs

unfoldable pub wire_answer_head : AnswerHead → List ℕ
wire_answer_head a = wire32 0 ++ (wire32 a.id ++ (wire32 a.code ++ wire32 a.count))

-- A request on the wire.
unfoldable pub wire_queries : List Str → List ℕ
wire_queries [] = []
wire_queries (q ∷ qs) = wire_str q ++ wire_queries qs

unfoldable pub wire_request : ℕ → List Str → ℕ → List ℕ
wire_request id queries flags =
    wire32 0 ++ (wire32 id ++ (wire32 (length queries) ++ (wire_queries queries ++ wire32 flags)))

pub record IsMatch (m : ResolveMatch) : Type 0 where
  pub id_ok : IsStr m.id
  pub name_ok : IsStr m.name
  pub desc_ok : IsStr m.desc
  pub type_ok : IsWord32 m.type_

pub record IsResult (r : ResolveResult) : Type 0 where
  pub code_ok : IsWord32 r.code
  pub name_ok : IsStr r.name
  pub count_ok : IsWord32 (length r.matches)
  pub matches_ok : All IsMatch r.matches
