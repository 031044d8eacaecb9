-- ===== src/LogStore.antt =====
-- kv8scope/LogStore.cpp: the decoded trace-log entries of one session. The consumer thread pushes to
-- the pending lists, and the render thread drains them.
use Prim.Native.Nat.{bit_and}
use kv8_metrics.Prelude.{
  ℕ, ◌+◌, ◌-◌, ◌/◌, ◌%◌, ◌^◌, ◌≤◌, Bool, true, false, not, ◌&&◌, ◌||◌, Option, none, some, List, [],
  ◌∷◌, ◌++◌, map, length, take, drop, ◌==◌, ltb, leb, if◌then◌else◌,
}
use kv8_metrics.Prelude.Bytes.{Bytes, codes}
use kv8_metrics.Prelude.Assoc.{find, assign, nat_eq}
use kv8_metrics.Prelude.Decimal.{decimal}
use kv8_metrics.Wire.LogRecord.{LogRecord, decode_log_record, log_flag_text}
use kv8_metrics.Wire.LogSite.{LogSiteInfo, decode_tail}
use kv8_metrics.Wire.Registry.{
  RegistryRecord, read_fixed, registry_size, registry_version, cid_log_site,
}
use kv8_metrics.Kv8log.Text.{hex8}
use kv8_metrics.Kv8log.Ctl.{find_key}
pub mod Laws
mod Tests

-- LogStore::Entry
pub record Entry : Type 0 where
  pub ts_ns : ℕ
  pub level : ℕ
  pub thread_id : ℕ
  pub cpu_id : ℕ
  pub line : ℕ
  pub file : Bytes
  pub func : Bytes
  pub message : Bytes
  pub site_hash : ℕ
  pub site_resolved : Bool

pub record LogStore : Type 0 where
  pub entries : List Entry
  pub sites : List (ℕ × LogSiteInfo)
  pub level_mask : ℕ
  pub filter : Bytes
  pub pending_entries : List Entry
  pub pending_sites : List (ℕ × LogSiteInfo)

-- LogStore::ResolveSiteForEntry, for the site that was found or not.
unfoldable pub resolve_with : Option LogSiteInfo → Entry → Entry
unfolding hex8
resolve_with (some site) e = record e {
  file = site.file;
  func = site.func;
  line = site.line;
  site_resolved = true;
}
resolve_with none e = record e {
  file = codes "<site:" ++ (hex8 e.site_hash ++ codes ">");
  func = [];
  line = 0;
  site_resolved = false;
}

unfoldable pub resolve : List (ℕ × LogSiteInfo) → Entry → Entry
unfolding find resolve_with
resolve sites e = resolve_with (find e.site_hash sites) e

-- `for (auto& e : m_entries) if (!e.bSiteResolved) ResolveSiteForEntry(e)`
unfoldable pub resolve_again : List (ℕ × LogSiteInfo) → List Entry → List Entry
unfolding resolve
resolve_again sites es = map (λ e. if e.site_resolved then e else resolve sites e) es

-- `m_sites.insert(kv)` for each site: a site that is known stays.
unfoldable pub insert_sites :
    List (ℕ × LogSiteInfo) → List (ℕ × LogSiteInfo) → List (ℕ × LogSiteInfo)
unfolding find assign
insert_sites [] known = known
insert_sites ((h, s) ∷ new) known =
    insert_sites new (elim (find h known) [ some _ ↦ known | none ↦ assign h s known ])

unfoldable pub seed_log_sites : List (ℕ × LogSiteInfo) → LogStore → LogStore
unfolding insert_sites resolve_again
seed_log_sites new st =
    let sites = insert_sites new st.sites in
    record st { sites = sites; entries = resolve_again sites st.entries }

unfoldable pub entry_message : LogRecord → Bytes → Bytes
entry_message h payload =
    if not (bit_and h.flags log_flag_text == 0)
    then payload
    else codes "<typed args, len=" ++ (decimal (length payload) ++ codes ">")

unfoldable pub new_entry : LogRecord → Bytes → Entry
unfolding entry_message
new_entry h payload = record {
  ts_ns = h.ts_ns;
  level = h.level;
  thread_id = h.thread_id;
  cpu_id = h.cpu_id;
  line = 0;
  file = [];
  func = [];
  message = entry_message h payload;
  site_hash = h.site_hash;
  site_resolved = false;
}

-- LogStore::PushLogRecordFromKafka
unfoldable pub push_log_record : Bytes → LogStore → LogStore
unfolding new_entry
push_log_record bytes st = elim (decode_log_record bytes) [
  | none ↦ st
  | some (h, payload) ↦ record st {
    pending_entries = st.pending_entries ++ new_entry h payload ∷ [];
  }
]

unfoldable pub push_site : ℕ → Bytes → LogStore → LogStore
push_site hash tail st = elim (decode_tail tail) [
  | none ↦ st
  | some site ↦ record st { pending_sites = st.pending_sites ++ (hash, site) ∷ [] }
]

-- LogStore::PushLogSiteFromKafka
unfoldable pub push_log_site : Bytes → LogStore → LogStore
unfolding push_site read_fixed
push_log_site bytes st =
    let r = read_fixed bytes in
    if ltb (length bytes) registry_size
    then st
    else if not (r.version == registry_version)
    then st
    else if not (r.counter_id == cid_log_site)
    then st
    else if ltb (length bytes) (registry_size + r.name_len)
    then st
    else push_site r.hash (take r.name_len (drop registry_size bytes)) st

-- `m_sites[kv.first] = std::move(kv.second)` for each new site.
unfoldable pub assign_sites :
    List (ℕ × LogSiteInfo) → List (ℕ × LogSiteInfo) → List (ℕ × LogSiteInfo)
unfolding assign
assign_sites [] known = known
assign_sites ((h, s) ∷ new) known = assign_sites new (assign h s known)

-- No entry is earlier than the one before it.
unfoldable pub in_order : List Entry → Bool
in_order [] = true
in_order (a ∷ []) = true
in_order (a ∷ b ∷ es) = not (ltb b.ts_ns a.ts_ns) && in_order (b ∷ es)

unfoldable pub drain_sites : LogStore → LogStore
unfolding assign_sites resolve_again
drain_sites st = elim st.pending_sites [
  | [] ↦ st
  | s ∷ ss ↦
      let sites = assign_sites (s ∷ ss) st.sites in
      record st { sites = sites; entries = resolve_again sites st.entries; pending_sites = [] }
]

-- The first pair that is compared ends at the first new entry. `sort` is `std::sort` by time.
module _ (sort : List Entry → List Entry) where
  unfoldable pub append_sorted : List Entry → List Entry → List Entry
  unfolding in_order
  append_sorted old new =
      if in_order (drop (length old - 1) (old ++ new)) then old ++ new else sort (old ++ new)

  unfoldable pub drain_entries : LogStore → LogStore
  unfolding append_sorted resolve
  drain_entries st = elim st.pending_entries [
    | [] ↦ st
    | e ∷ es ↦ record st {
      entries = append_sorted st.entries (map (resolve st.sites) (e ∷ es));
      pending_entries = [];
    }
  ]

  -- LogStore::DrainPending
  unfoldable pub drain_pending : LogStore → LogStore
  unfolding drain_sites drain_entries
  drain_pending st = drain_entries (drain_sites st)

-- `filter.empty() || message.find(filter) != npos`
unfoldable pub matches : Bytes → Bytes → Bool
unfolding find_key
matches [] message = true
matches (c ∷ cs) message = elim (find_key (c ∷ cs) message) [ none ↦ false | some _ ↦ true ]

-- `uLevelMask & (uint8_t)(1u << level)`, and the text filter.
unfoldable pub is_visible : ℕ → Bytes → Entry → Bool
unfolding matches
is_visible mask filter e = not (bit_and mask (2 ^ e.level % 2 ^ 8) == 0) && matches filter e.message

unfoldable pub count_matching : ℕ → Bytes → List Entry → ℕ
unfolding is_visible
count_matching mask filter [] = 0
count_matching mask filter (e ∷ es) =
    if is_visible mask filter e
    then (count_matching mask filter es + 1)
    else count_matching mask filter es

-- LogStore::CountVisible
unfoldable pub count_visible : LogStore → ℕ
unfolding count_matching
count_visible st = count_matching st.level_mask st.filter st.entries

-- `write_quoted`
unfoldable pub quoted_body : Bytes → Bytes
quoted_body [] = []
quoted_body (c ∷ s) = if c == 34 then (34 ∷ 34 ∷ quoted_body s) else (c ∷ quoted_body s)

unfoldable pub write_quoted : Bytes → Bytes
unfolding quoted_body
write_quoted s = 34 ∷ (quoted_body s ++ 34 ∷ [])

unfoldable pub level_name : ℕ → Bytes
level_name level =
    if level == 0
    then codes "DEBUG"
    else if level == 1
    then codes "INFO"
    else if level == 2
    then codes "WARN"
    else if level == 3
    then codes "ERROR"
    else if level == 4
    then codes "FATAL"
    else codes "?????"

-- `iso` is what `gmtime_r` and `snprintf` make of a time in ns.
module _ (iso : ℕ → Bytes) where
  unfoldable pub csv_row : Entry → Bytes
  unfolding level_name hex8 write_quoted
  csv_row e =
      iso e.ts_ns
      ++ (codes ","
          ++ (decimal e.ts_ns
              ++ (codes ","
                  ++ (level_name e.level
                      ++ (codes ","
                          ++ (decimal e.cpu_id
                              ++ (codes ",0x"
                                  ++ (hex8 e.thread_id
                                      ++ (codes ","
                                          ++ (write_quoted e.file
                                              ++ (codes ","
                                                  ++ (decimal e.line
                                                      ++ (codes ","
                                                          ++ (write_quoted e.func
                                                            ++ (codes ","
                                                            ++ (write_quoted e.message
                                                            ++ 10 ∷ []))))))))))))))))

  -- The rows, and how many they are.
  unfoldable pub csv_rows : (lo hi mask : ℕ) → Bytes → List Entry → Bytes × ℕ
  unfolding csv_row is_visible
  csv_rows lo hi mask filter [] = ([], 0)
  csv_rows lo hi mask filter (e ∷ es) =
      let rest = csv_rows lo hi mask filter es in
      if (ltb e.ts_ns lo || ltb hi e.ts_ns) || not (is_visible mask filter e)
      then rest
      else (csv_row e ++ rest.0, rest.1 + 1)

  -- LogStore::ExportCSV, once the file is open: what it holds in the end, and `*pnWritten`.
  unfoldable pub export_csv : (lo hi mask : ℕ) → Bytes → LogStore → Bytes × ℕ
  unfolding csv_rows
  export_csv lo hi mask filter st =
      let rows = csv_rows lo hi mask filter st.entries in
      (
        codes "timestamp_iso,timestamp_ns,level,cpu,thread,file,line,function,message"
            ++ (10 ∷ rows.0),
        rows.1,
      )
