-- ===== src/Resolve/Run.antt =====
-- The state of the resolve service and what it does: src/srvc_resolve.c.
use meanwhile.Base.{
  ℕ, zero, suc, ◌+◌, ◌%◌, ◌^◌, true, Option, none, some, List, [], ◌∷◌, ◌++◌, ◌==◌, if◌then◌else◌,
  map,
}
use meanwhile.Buffer.Opaque.{Opaque}
use meanwhile.Buffer.Put.{put_buffer_new, put_buffer_finalize}
use meanwhile.Buffer.Get.{GetBuffer, get_buffer_wrap}
use meanwhile.Basic.{Str, opaque_clone}
use meanwhile.Message.Head.{message_head_zero}
use meanwhile.Message.Channel.{ChannelSend}
use meanwhile.Message.Dispatch
use meanwhile.Cipher.Instance.{instance_encrypt}
use meanwhile.Channel.{Channel, ch_init, is_open, encrypted, send_encrypted}
use meanwhile.Channel.Life.{
  Context, is_wait, new_channel, set_service, set_proto_type, set_proto_ver, create, destroy,
}
use meanwhile.Service.{Service, service_started, service_stopped, service_is_dead, srv_stopping}
use meanwhile.Resolve.{ResolveResult, AnswerHead, load_results, answer_head_get, request_put}

-- A handler with its data and its cleanup is an `H`.
pub record Search (H : Type 0) : Type 0 where
  pub id : ℕ
  pub handler : H

-- What happened to a search: its handler was called, and it was freed, with the call of its cleanup.
pub data SearchEvent (H : Type 0) : Type 0 where
  triggered : H → ℕ → ℕ → List ResolveResult → SearchEvent H
  freed : H → SearchEvent H

-- `left` are the channels that the service destroyed, and `searches` is `none` when it is NULL.
pub record Resolve (C H : Type 0) : Type 0 where
  pub service : Service
  pub channel : Option (Channel C)
  pub searches : Option (List (Search H))
  pub counter : ℕ
  pub events : List (SearchEvent H)
  pub left : List (Channel C)

-- The loop of search_new: it takes the counter, a guint32, until this was not SEARCH_ERROR. One of
-- two rounds ends it.
abbrev pub next_id : ℕ → ℕ → ℕ × ℕ
next_id zero counter = (counter, (counter + 1) % 2 ^ 32)
next_id (suc n) counter =
    let rest = next_id n ((counter + 1) % 2 ^ 32) in
    if counter == 0 then rest else (counter, (counter + 1) % 2 ^ 32)

module _ {H : Type 0} where
  -- The table of searches: g_hash_table_lookup and g_hash_table_remove, which frees what it removes.
  unfoldable pub find_search : ℕ → List (Search H) → Option (Search H)
  find_search id [] = none
  find_search id (s ∷ ss) = let rest = find_search id ss in if s.id == id then some s else rest

  unfoldable pub without_search : ℕ → List (Search H) → List (Search H)
  without_search id [] = []
  without_search id (s ∷ ss) =
      let rest = without_search id ss in if s.id == id then rest else s ∷ rest

  abbrev pub search_of : ℕ → Option (List (Search H)) → Option (Search H)
  search_of id none = none
  search_of id (some ss) = find_search id ss

  abbrev pub freed_of : Option (Search H) → List (SearchEvent H)
  freed_of none = []
  freed_of (some s) = freed s.handler ∷ []

  abbrev pub freed_all : List (Search H) → List (SearchEvent H)
  freed_all ss = map (λ s. freed s.handler) ss

module _ {C H : Type 0} where
  -- Removal from a table, which may be NULL.
  abbrev pub remove_from : ℕ → Option (List (Search H)) → Resolve C H → Resolve C H
  remove_from id none srvc = srvc
  remove_from id (some ss) srvc = record srvc {
    searches = some (without_search id ss);
    events = srvc.events ++ freed_of (find_search id ss);
  }

  unfoldable pub remove_search : ℕ → Resolve C H → Resolve C H
  remove_search id srvc = remove_from id srvc.searches srvc

  -- g_hash_table_insert, which frees a search that it replaces.
  abbrev pub insert_into : Search H → Option (List (Search H)) → Resolve C H → Resolve C H
  insert_into s none srvc = srvc
  insert_into s (some ss) srvc = record srvc {
    searches = some (without_search s.id ss ++ (s ∷ []));
    events = srvc.events ++ freed_of (find_search s.id ss);
  }

  unfoldable pub insert_search : Search H → Resolve C H → Resolve C H
  insert_search s srvc = insert_into s srvc.searches srvc

  -- The part of recv under if(search).
  abbrev pub results_recv :
      Search H → AnswerHead → List ResolveResult × GetBuffer → Resolve C H → Resolve C H
  results_recv search a loaded srvc = remove_search a.id (
      if loaded.1.error then srvc else record srvc {
        events = srvc.events ++ (triggered search.handler a.id a.code loaded.0 ∷ []);
      })

  abbrev pub search_recv :
      ℕ → AnswerHead → GetBuffer → Option (Search H) → Resolve C H → Resolve C H
  search_recv uninit a b none srvc = srvc
  search_recv uninit a b (some search) srvc =
      results_recv search a (load_results uninit a.count [] b) srvc

  abbrev pub answer_recv : ℕ → AnswerHead × GetBuffer → Resolve C H → Resolve C H
  answer_recv uninit head srvc =
      if head.1.error
      then srvc
      else search_recv uninit head.0 head.1 (search_of head.0.id srvc.searches) srvc

  -- recv; the data is never NULL. `uninit` is what its variables hold before they are read.
  unfoldable pub recv : ℕ → ℕ → Opaque → Resolve C H → Resolve C H
  recv uninit type_ data_ srvc =
      if type_ == 2
      then answer_recv uninit (answer_head_get uninit (get_buffer_wrap (some data_))) srvc
      else srvc

  -- mwServiceResolve_cancelResolve
  abbrev pub cancel_resolve : ℕ → Resolve C H → Resolve C H
  cancel_resolve = remove_search

abbrev pub request_of : ℕ → List Str → ℕ → Opaque
request_of id queries flags = put_buffer_finalize (request_put id queries flags put_buffer_new)

module _ {C : Type 0} (con : Context C) where
  -- mwChannel_send, and what it returns: mwSession_send's result, or 0 when the message is queued.
  abbrev pub message_of : ℕ → Opaque → Channel C → ChannelSend
  message_of type_ data_ chan =
      (encrypted (instance_encrypt con.ops) chan.cipher (record {
        head = record message_head_zero { type_ = 0x0004; channel = chan.id };
        type_ = type_;
        data_ = opaque_clone (some data_);
      })).1

  abbrev pub send_result_of : ℕ → Opaque → Channel C → ℕ
  send_result_of type_ data_ chan =
      if is_open chan.state
      then con.send_result chan.sent (Dispatch.channel_send (message_of type_ data_ chan))
      else 0

  abbrev pub send_on : ℕ → Opaque → Channel C → Channel C
  send_on type_ data_ chan = send_encrypted (instance_encrypt con.ops) type_ data_ true chan

  abbrev pub left_by : Option (Channel C) → List (Channel C)
  left_by none = []
  left_by (some chan) = destroy con 0 none chan ∷ []

  -- recv_create
  abbrev pub refuse_create : Channel C → Channel C
  refuse_create = destroy con 0x80000000 none

module _ {C H : Type 0} (con : Context C) where
  -- The end of mwServiceResolve_resolve, for the service's channel, which may be NULL; for that
  -- mwChannel_send fails.
  abbrev pub resolve_on : Opaque → Search H → Option (Channel C) → Resolve C H → ℕ × Resolve C H
  resolve_on o search none srvc =
      (0, record srvc { events = srvc.events ++ (freed search.handler ∷ []) })
  resolve_on o search (some chan) srvc =
      let sent = record srvc { channel = some (send_on con 2 o chan) } in
      if send_result_of con 2 o chan == 0
      then (search.id, insert_search search sent)
      else (0, record sent { events = sent.events ++ (freed search.handler ∷ []) })

  -- mwServiceResolve_resolve, which gives the id of the search, or SEARCH_ERROR.
  unfoldable pub resolve : List Str → ℕ → H → Resolve C H → ℕ × Resolve C H
  resolve [] flags handler srvc = (0, srvc)
  resolve (q ∷ qs) flags handler srvc =
      let id = next_id 1 srvc.counter in
      resolve_on (request_of id.0 (q ∷ qs) flags) (record { id = id.0; handler = handler })
        srvc.channel (record srvc { counter = id.1 })

  -- make_channel, on a channel with the id that mwChannel_newOutgoing gives it.
  abbrev pub make_channel : ℕ → Resolve C H → Channel C
  make_channel id srvc = create con (
      set_proto_ver con 0 (
        set_proto_type con 0x15
          (set_service con srvc.service.type_ (record (new_channel id) { state = ch_init }))))

  -- The start handler; mwChannel_create fails unless it leaves the channel waiting.
  unfoldable pub resolve_start : ℕ → Resolve C H → Resolve C H
  resolve_start id srvc =
      let chan = make_channel id srvc in
      if is_wait chan.state
      then record srvc { channel = some chan; searches = some [] }
      else record srvc { service = service_stopped srvc.service }

  abbrev pub all_of : Option (List (Search H)) → List (Search H)
  all_of none = []
  all_of (some ss) = ss

  -- The stop handler
  unfoldable pub resolve_stop : Resolve C H → Resolve C H
  resolve_stop srvc = record srvc {
    channel = none;
    left = srvc.left ++ left_by con srvc.channel;
    searches = none;
    events = srvc.events ++ freed_all (all_of srvc.searches);
    service = service_stopped srvc.service;
  }

  -- recv_accept for the service's own channel
  abbrev pub accept_recv : Resolve C H → Resolve C H
  accept_recv srvc = record srvc { service = service_started srvc.service }

  -- recv_destroy, which also asks the session to sense the service again
  unfoldable pub destroy_recv : Resolve C H → Resolve C H
  destroy_recv srvc =
      let cut = record srvc { channel = none } in
      if service_is_dead cut.service.state
      then cut
      else resolve_stop (record cut { service = record (cut.service) { state = srv_stopping } })
