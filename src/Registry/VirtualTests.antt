-- ===== src/Registry/VirtualTests.antt =====
-- The end of `DiscoverSessions` at concrete inputs, and an instance of each property.
use mathlib.Core.List.{Memᴰ}
use kv8_metrics.Prelude.{ℕ, ◌≡◌, ◌<◌, ◌≤◌, ◌↔◌, ◌%◌, refl, true, false, Option, none, List, [], ◌∷◌}
use kv8_metrics.Prelude.Bytes.{Bytes, codes}
use kv8_metrics.Prelude.Assoc.{find, member, bytes_eq, nat_eq}
use kv8_metrics.Udt.Types.{FieldType, ResolvedSchema}
use kv8_metrics.Registry.{CounterMeta, SessionMeta, Scan, new_session}
use kv8_metrics.Registry.Resolve.{resolve_schemas}
use kv8_metrics.Registry.Virtual.{virtual_id, finish_scan}
use kv8_metrics.Registry.Laws.Resolution.{Ended, resolve_schemas-Ended}
use kv8_metrics.Registry.Laws.Virtual.{virtual_id_lem}
use kv8_metrics.Registry.Laws.Finish.{finish_scan-deleted}

abbrev no_numbers : Bytes → Option (ℕ × Bytes)
no_numbers s = none

-- The schema with the lower hash embeds the other one, so that it is resolved by the second pass.
abbrev outer : Bytes
outer = codes "{'name':'O','fields':[{'n':'p','t':'V'},{'n':'k','t':'u8'}]}"

abbrev cache : List (ℕ × Bytes)
cache = (2, codes "{'name':'V','fields':[{'n':'x','t':'i16'}]}") ∷ (1, outer) ∷ []

abbrev resolved_outer : ResolvedSchema
resolved_outer = record {
  schema_name = codes "O";
  hash = 1;
  payload_size = 3;
  fields =
      record {
        name = codes "p.x";
        display_name = [];
        type = FieldType.i16;
        offset = 0;
        min_val = 0;
        max_val = 0;
      }
      ∷ record {
        name = codes "k";
        display_name = [];
        type = FieldType.u8;
        offset = 2;
        min_val = 0;
        max_val = 0;
      }
      ∷ [];
}

resolve_schemas-Ended_example : Ended no_numbers (1, outer) (resolve_schemas no_numbers cache)
resolve_schemas-Ended_example =
    resolve_schemas-Ended no_numbers cache (1, outer) (Memᴰ.tail (Memᴰ.head refl))

virtual_id_lem_example :
    (0x1000 ≤ virtual_id 3 70)
    × (virtual_id 3 70 < 0x2000)
    × ((virtual_id 3 70 ≡ virtual_id 3 6) ↔ ((3 % 64 ≡ 3 % 64) × (70 % 64 ≡ 6 % 64)))
virtual_id_lem_example = virtual_id_lem 3 70 3 6

-- So the counters of the fields 0 and 64 of one feed have one id.
sixty_five_fields : virtual_id 0 64 ≡ virtual_id 0 0
unfolding virtual_id
sixty_five_fields = refl

abbrev feed : CounterMeta
feed = record {
  name = codes "pose";
  counter_id = 7;
  flags = 3;
  min_bits = 0;
  alarm_min = 0;
  max_bits = 0;
  alarm_max = 0;
  data_topic = codes "ch.S.u.00000001.0007";
  is_udt_feed = true;
  schema_hash = 1;
  schema_json = outer;
  is_virtual_field = false;
  field_offset = 0;
  field_type = 0;
  display_name = [];
}

abbrev session : SessionMeta
session = record (new_session (codes "ch") (codes "ch.S")) {
  hash_to_counters = (1, feed ∷ []) ∷ [];
}

abbrev scanned : Scan
scanned = record {
  sessions = (codes "ch.S", session) ∷ [];
  deleted = codes "ch.T" ∷ [];
  schemas = cache;
  sites = [];
}

finish_scan-deleted_example : find (codes "ch.T") (finish_scan no_numbers scanned) ≡ none
finish_scan-deleted_example =
    finish_scan-deleted no_numbers scanned (codes "ch.T") (unfold member in refl)
