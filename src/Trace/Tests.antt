-- ===== src/Trace/Tests.antt =====
-- Runs of the model of crates/rsproxy-trace on concrete sessions.
mod Pending
mod Store
use mathlib.Core.List.{reverse}
use rsproxy.Base.{
  ◌++◌, ℕ, zero, suc, ◌+◌, ◌-◌, ◌≤◌, ◌<◌, ◌≡◌, refl, min, max, ◌⊎◌, inl, inr, Bool, true, false,
  Option, none, some, List, [], ◌∷◌, ◌++◌, length, take, drop, All, ltb, leb, ◌&&◌, if◌then◌else◌,
  arith,
}
use rsproxy.Base.Words.{word_max, sat_add, sat_sub, sat_mul, sum_usize, wrap_add}
use rsproxy.Base.Assoc.{lookup}
use rsproxy.Trace.Model.{Text, Session, SessionKind, new_session, collected, new_buf}
use rsproxy.Trace.Size.{
  Layout, headers_bytes, rules_bytes, frame_bytes, tls_bytes, option_string_bytes,
  vector_storage_bytes, estimate_session_bytes, estimate_session_bytes-le,
}
use rsproxy.Trace.Event.{TraceEvent, SessionStart, session_id, request_body, from_session}
use rsproxy.Trace.Memory
use rsproxy.Trace.Memory.{
  MemoryStore, insert, make_room, is_crowded, evict_oldest, evict_to_budget, list, list_after, get,
  sessions_of,
}
use rsproxy.Trace.Memory.Bounds
use rsproxy.Trace.Memory.Bounds.{
  new-IsValid, insert-IsValid, Rejected, Inserted, insert_lem, evict_to_budget_lem,
}
use rsproxy.Trace.Memory.Queries.{list-insert, get-insert, list_after-insert, younger}
use rsproxy.Trace.Memory.Evict.{Dropped, TightOver}

abbrev layout : Layout
layout = record {
  session = 400;
  trace_event = 500;
  text = 24;
  text_pair = 48;
  matched_rule = 56;
  frame_record = 96;
  tls_record = 96;
}

abbrev text_of : List ℕ → Text
text_of = collected

abbrev session_one : Session
session_one =
    record (new_session 5 SessionKind.http (text_of (71 ∷ [])) (text_of (47 ∷ [])) (text_of [])) {
      id = 1;
      request_bytes = 3;
      req_body_head = text_of (1 ∷ 2 ∷ 3 ∷ []);
    }

abbrev empty_store : MemoryStore
empty_store = Memory.new 1 1000

insert_lem_example :
    (Rejected layout empty_store session_one
      × (insert layout empty_store session_one
          ≡ record empty_store { evicted_sessions = sat_add empty_store.evicted_sessions 1 }))
    ⊎ ((k : ℕ) × Inserted layout empty_store (insert layout empty_store session_one) session_one k)
insert_lem_example =
    insert_lem layout empty_store session_one (new-IsValid layout 1 1000 (omega arith))

abbrev one_store : MemoryStore
one_store = insert layout empty_store session_one

one_store-IsValid : Bounds.IsValid layout one_store
one_store-IsValid =
    insert-IsValid layout empty_store session_one (new-IsValid layout 1 1000 (omega arith))

evict_to_budget_lem_example :
    (k : ℕ) × Dropped one_store (evict_to_budget one_store 100) k
    × TightOver one_store 100 k
    × ((evict_to_budget one_store 100).memory_bytes ≤ 100)
    × Bounds.IsValid layout (evict_to_budget one_store 100)
evict_to_budget_lem_example = evict_to_budget_lem layout one_store 100 one_store-IsValid

abbrev session_two : Session
session_two = record session_one { id = 2 }

abbrev two_store : MemoryStore
two_store = insert layout one_store session_two

-- The store has room for one session, so the first is evicted.
two_store-Inserted : Inserted layout one_store two_store session_two 1
unfolding estimate_session_bytes headers_bytes rules_bytes frame_bytes tls_bytes option_string_bytes
    vector_storage_bytes insert Memory.new make_room is_crowded evict_oldest new_session sat_add
    sat_mul sum_usize
two_store-Inserted = record {
  few = omega arith;
  kept = refl;
  evicted = refl;
  tight = inr (inl (omega arith));
  valid = insert-IsValid layout one_store session_two one_store-IsValid;
  same_max = refl;
  same_budget = refl;
}

list-insert_example :
    list two_store 3 ≡ session_two ∷ sessions_of (take 2 (reverse (drop 1 one_store.sessions)))
list-insert_example = list-insert layout one_store two_store session_two 1 2 two_store-Inserted

one_store-get : get one_store 2 ≡ none
unfolding get insert make_room is_crowded evict_oldest Memory.new estimate_session_bytes
    headers_bytes rules_bytes frame_bytes tls_bytes option_string_bytes vector_storage_bytes
    new_session sat_add sat_mul sum_usize
one_store-get = refl

get-insert_example : get two_store 2 ≡ some session_two
get-insert_example =
    get-insert layout one_store two_store session_two 1 two_store-Inserted one_store-get

list_after-insert_example :
    list_after two_store 1 5 ≡ take 5 (younger 1 (drop 1 one_store.sessions) ++ session_two ∷ [])
list_after-insert_example =
    list_after-insert layout one_store two_store session_two 1 1 5 two_store-Inserted

estimate_session_bytes-le_example : estimate_session_bytes layout session_one ≤ word_max
estimate_session_bytes-le_example = estimate_session_bytes-le layout session_one
