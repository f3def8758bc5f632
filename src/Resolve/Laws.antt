-- ===== src/Resolve/Laws.antt =====
-- The answers of the server are read, and reach the search that asked.
pub mod Answers
pub mod Requests
use mathlib.Core.Path.{subst}
use meanwhile.Base.{
  ℕ, ◌<◌, ◌^◌, ◌≡◌, refl, sym, ap, ◌∙◌, arith, true, false, none, some, List, [], ◌∷◌, ◌++◌,
  append_assoc, append-nil, length, All,
}
use meanwhile.Buffer.Put.Laws.{Writes, Writes->>, skip-Writes}
use meanwhile.Buffer.Get.{◌>>=◌, pure}
use meanwhile.Buffer.Get.Laws.{Reads, Reads->>=, Reads-end, pure-Reads}
use meanwhile.Basic.{Str, guint32_put}
use meanwhile.Basic.Writes.{guint32_put-Writes, string_put-Writes}
use meanwhile.Basic.Reads.{guint32_get-Reads, string_get-Reads}
use meanwhile.Basic.Wire.{wire32, wire_str, IsWord32}
use meanwhile.Common.Rules.{pure_eq-Reads}
use meanwhile.Resolve.{
  ResolveMatch, ResolveResult, AnswerHead, load_matches, load_results, answer_head_get, queries_put,
  request_put, wire_match, wire_matches, wire_results, wire_answer_head, wire_queries, wire_request,
  IsMatch, IsResult,
}

load_matches-Reads :
    (ms acc : List ResolveMatch)
    → All IsMatch ms
    → Reads (load_matches (length ms) acc) (wire_matches ms) (acc ++ ms)
unfolding load_matches wire_matches wire_match
load_matches-Reads [] acc h = pure_eq-Reads (sym (append-nil acc))
load_matches-Reads (m ∷ ms) acc h =
    rw
      (
        append_assoc (wire_str m.id) (wire_str m.name ++ (wire_str m.desc ++ wire32 m.type_))
            (wire_matches ms),
        append_assoc (wire_str m.name) (wire_str m.desc ++ wire32 m.type_) (wire_matches ms),
        append_assoc (wire_str m.desc) (wire32 m.type_) (wire_matches ms),
      )
      (Reads->>= _ (string_get-Reads m.id h.0.id_ok) (
        Reads->>= _ (string_get-Reads m.name h.0.name_ok) (
          Reads->>= _ (string_get-Reads m.desc h.0.desc_ok) (
            Reads->>= _ (guint32_get-Reads 0 m.type_ h.0.type_ok) (
              subst (Reads _ (wire_matches ms)) (append_assoc acc (m ∷ []) ms)
                (load_matches-Reads ms (acc ++ (m ∷ [])) h.1))))))

pub load_results-Reads :
    (u : ℕ) (rs acc : List ResolveResult)
    → All IsResult rs
    → Reads (load_results u (length rs) acc) (wire_results rs) (acc ++ rs)
unfolding load_results wire_results
load_results-Reads u [] acc h = pure_eq-Reads (sym (append-nil acc))
load_results-Reads u (r ∷ rs) acc h =
    let count = wire32 (length r.matches) in
    let found = wire_matches r.matches in
    rw
      (
        append_assoc (wire32 0) (wire32 r.code ++ (wire_str r.name ++ (count ++ found)))
            (wire_results rs),
        append_assoc (wire32 r.code) (wire_str r.name ++ (count ++ found)) (wire_results rs),
        append_assoc (wire_str r.name) (count ++ found) (wire_results rs),
        append_assoc count found (wire_results rs),
      )
      (Reads->>= _ (guint32_get-Reads u 0 (omega arith)) (
        Reads->>= _ (guint32_get-Reads 0 r.code h.0.code_ok) (
          Reads->>= _ (string_get-Reads r.name h.0.name_ok) (
            Reads->>= _ (guint32_get-Reads u (length r.matches) h.0.count_ok) (
              Reads->>= _ (load_matches-Reads r.matches [] h.0.matches_ok) (
                subst (Reads _ (wire_results rs)) (append_assoc acc (r ∷ []) rs)
                  (load_results-Reads u rs (acc ++ (r ∷ [])) h.1)))))))

pub answer_head_get-Reads :
    (u : ℕ) (a : AnswerHead)
    → IsWord32 a.id
    → IsWord32 a.code
    → IsWord32 a.count
    → Reads (answer_head_get u) (wire_answer_head a) a
unfolding answer_head_get wire_answer_head
answer_head_get-Reads u a h k m = Reads->>= _ (guint32_get-Reads u 0 (omega arith)) (
    Reads->>= _ (guint32_get-Reads u a.id h) (
      Reads->>= _ (guint32_get-Reads u a.code k)
        (Reads-end _ (guint32_get-Reads u a.count m) (pure-Reads a))))

queries_put-Writes : (qs : List Str) → Writes (queries_put qs) (wire_queries qs)
unfolding queries_put wire_queries
queries_put-Writes [] = skip-Writes
queries_put-Writes (q ∷ qs) = Writes->> (string_put-Writes q) (queries_put-Writes qs)

pub request_put-Writes :
    (id : ℕ) (qs : List Str) (flags : ℕ)
    → Writes (request_put id qs flags) (wire_request id qs flags)
unfolding request_put wire_request
request_put-Writes id qs flags = Writes->> (guint32_put-Writes 0) (
    Writes->> (guint32_put-Writes id) (
      Writes->> (guint32_put-Writes (length qs))
        (Writes->> (queries_put-Writes qs) (guint32_put-Writes flags))))
