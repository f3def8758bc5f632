-- ===== src/Witnesses/Searches.antt =====
-- A search for two names, and its answer.
use meanwhile.Base.{
  ℕ, ◌≡◌, refl, arith, false, none, some, List, [], ◌∷◌, ◌++◌, length, ◌==◌, ◌≤◌, All,
}
use meanwhile.Buffer.Put.Laws.{max_wire}
use meanwhile.Buffer.Opaque.{opaque_of, opaque_bytes}
use meanwhile.Basic.{Str}
use meanwhile.Basic.Wire.{wire32, wire_str, wire16}
use meanwhile.Channel.{Channel, ch_open}
use meanwhile.Channel.Life.{new_channel}
use meanwhile.Cipher.Instance.{Instance}
use meanwhile.Service.{srv_started}
use meanwhile.Resolve.{ResolveResult, IsResult, wire_request, wire_queries}
use meanwhile.Resolve.Run.{
  triggered, freed, Resolve, recv, resolve, request_of, send_on, insert_search, without_search,
}
use meanwhile.Resolve.Laws.Answers.{wire_answer, resolve_answered}
use meanwhile.Resolve.Laws.Requests.{resolve_sent}
use meanwhile.Witnesses.Numbers.{numbers}
use meanwhile.Witnesses.Lives.{bare}

abbrev line : Channel (Instance numbers)
line = record (new_channel 7) { state = ch_open }

-- The handlers are numbers; the next id is SEARCH_ERROR, which is passed over.
abbrev asking : Resolve (Instance numbers) ℕ
asking = record {
  service = record { type_ = 0x15; state = srv_started; start = none; stop = none };
  channel = some line;
  searches = some (record { id = 4; handler = 40 } ∷ []);
  counter = 0;
  events = [];
  left = [];
}

abbrev names : List Str
names = some (97 ∷ []) ∷ some (98 ∷ 99 ∷ []) ∷ []

abbrev found : List ResolveResult
found =
    record {
      code = 0;
      name = some (97 ∷ []);
      matches = record { id = some (120 ∷ []); name = none; desc = none; type_ = 1 } ∷ [];
    }
    ∷ []

found-IsResult : All IsResult found
found-IsResult = (
  record {
    code_ok = omega arith;
    name_ok = record { plain = refl; short = omega arith };
    count_ok = omega arith;
    matches_ok = (
      record {
        id_ok = record { plain = refl; short = omega arith };
        name_ok = record { plain = refl; short = omega arith };
        desc_ok = record { plain = refl; short = omega arith };
        type_ok = omega arith;
      },
      tt,
    );
  },
  tt,
)

asked : ((resolve bare names 1 50 asking).0 == 0) ≡ false
unfolding resolve insert_search
asked = refl

resolve_answered_example :
    let out = resolve bare names 1 50 asking in
    recv 9 2 (opaque_of (wire_answer out.0 0 found)) out.1 ≡ record (out.1) {
      searches = some (without_search out.0 (record { id = 4; handler = 40 } ∷ []));
      events = (out.1.events ++ (triggered 50 out.0 0 found ∷ [])) ++ (freed 50 ∷ []);
    }
resolve_answered_example =
    resolve_answered bare 9 names 1 0 50 found asking (record { id = 4; handler = 40 } ∷ []) refl
      (omega arith) (omega arith) (omega arith) found-IsResult asked

short_request : length (wire_request 1 names 1) ≤ max_wire
unfolding wire_request wire_queries wire32 wire_str wire16
short_request = omega arith

resolve_sent_example :
    let o = request_of 1 names 1 in
    let out = resolve bare names 1 50 asking in
    ((1 == 0) ≡ false)
    × (opaque_bytes o ≡ wire_request 1 names 1)
    × (out.0 ≡ 1)
    × (out.1.channel ≡ some (send_on bare 2 o line))
resolve_sent_example =
    resolve_sent bare (some (97 ∷ [])) (some (98 ∷ 99 ∷ []) ∷ []) 1 50 asking line refl
      (omega arith) short_request refl
