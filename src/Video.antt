-- ===== src/Video.antt =====
-- video/normal_stream.py: OnlineMediaAssembler, which puts the fragments of the live video together.
mod Untouched
pub mod Gathers
mod Steps
mod Parts
pub mod Bounded
pub mod Runs
pub mod Reassembles
pub mod Traces
use openframetap.Prelude.{
  ℕ, zero, suc, Bool, true, false, Option, none, some, List, [], ◌∷◌, ◌++◌, ◌==◌, if◌then◌else◌,
  not, ◌+◌, ◌-◌, ◌&&◌, ltb, leb, length, take, drop, bit_and, Result, ok, err,
}
use openframetap.Floats.{Floats}
use openframetap.Bytes.{same_bytes}
use openframetap.Dicts.{lookup, has, store, remove, keep_if}
use openframetap.Media.{
  MediaFragment, AccessUnitHeader, MediaError, parse_fragment, parse_access_unit, media_magic,
}

-- The keys of `stats`.
pub data Stat : Type 0 where
  fragments continuation_expired incomplete_dropped late_duplicates conflicts duplicates : Stat
  access_units continued_access_units length_mismatched continuation_gap invalid_header : Stat

abbrev pub stat_number : Stat → ℕ
stat_number fragments = 0
stat_number continuation_expired = 1
stat_number incomplete_dropped = 2
stat_number late_duplicates = 3
stat_number conflicts = 4
stat_number duplicates = 5
stat_number access_units = 6
stat_number continued_access_units = 7
stat_number length_mismatched = 8
stat_number continuation_gap = 9
stat_number invalid_header = 10

-- an item of `pending`
pub record Group (W : Type 0) : Type 0 where
  pub started : W
  pub count : ℕ
  pub parts : List (ℕ × List ℕ)

-- `continuation`
pub record Continuation (W : Type 0) : Type 0 where
  pub held : List ℕ
  pub declared : ℕ
  pub timestamp : ℕ
  pub next_id : ℕ
  pub begun : W

pub record Assembler (W : Type 0) : Type 0 where
  pub pending : List (ℕ × Group W)
  pub finished : List (ℕ × W)
  pub stats : Stat → ℕ
  pub continuation : Option (Continuation W)

-- What `feed` raises: the error of the parser, or the KeyError of a missing part.
pub data AssemblerError : Type 0 where
  bad_fragment : MediaError → AssemblerError
  missing_part : AssemblerError

-- An access unit and its timestamp.
abbrev pub TimedUnit : Type 0
TimedUnit = List ℕ × ℕ

abbrev pub Fed : Type 0 → Type 0
Fed W = Assembler W × Result AssemblerError (Option TimedUnit)

abbrev pub behind : Option (List ℕ) → Option (List ℕ) → Option (List ℕ)
behind (some part) (some rest) = some (part ++ rest)
behind (some part) none = none
behind none rest = none

-- b''.join(parts[n] for n in range(count)), from index n on
abbrev pub join_parts : List (ℕ × List ℕ) → ℕ → ℕ → Option (List ℕ)
join_parts parts n zero = some []
join_parts parts n (suc more) = behind (lookup parts n) (join_parts parts (suc n) more)

-- all(len(p) == 1452 for p in parts.values())
abbrev pub all_full : List (ℕ × List ℕ) → Bool
all_full [] = true
all_full ((n, part) ∷ parts) = length part == 1452 && all_full parts

abbrev pub begins_unit : List ℕ → Bool
begins_unit raw = same_bytes (take 4 raw) media_magic

module _ {W : Type 0} ⦃f : Floats W⦄ where
  abbrev pub new_assembler : Assembler W
  new_assembler = record { pending = []; finished = []; stats = λ _. 0; continuation = none }

  -- now - since > 0.5
  abbrev pub is_expired : W → W → Bool
  is_expired now since = f.lt (f.literal 1 2) (f.sub now since)

  -- now - since < 2
  abbrev pub is_remembered : W → W → Bool
  is_remembered now since = f.lt (f.sub now since) (f.literal 2 1)

  -- stats[name] += n
  abbrev pub add_stat : ℕ → Stat → Assembler W → Assembler W
  add_stat n name a = record a {
    stats =
        λ other. if stat_number other == stat_number name then a.stats other + n else a.stats other;
  }

  abbrev pub expire_held : W → Option (Continuation W) → Assembler W → Assembler W
  expire_held now none a = a
  expire_held now (some c) a =
      if is_expired now c.begun
      then add_stat 1 continuation_expired (record a { continuation = none })
      else a

  abbrev pub is_current : W → Group W → Bool
  is_current now item = not (is_expired now item.started)

  abbrev pub expire_pending : W → Assembler W → Assembler W
  expire_pending now a =
      let kept = keep_if (is_current now) a.pending in
      add_stat (length a.pending - length kept) incomplete_dropped (record a { pending = kept })

  -- the expiry of the continuation, of the groups and of the finished keys
  unfoldable pub forget : W → Assembler W → Assembler W
  forget now a =
      let b = expire_pending now (expire_held now a.continuation (add_stat 1 fragments a)) in
      record b { finished = keep_if (is_remembered now) b.finished }

  -- del pending[key]; finished[key] = now
  unfoldable pub settle : ℕ → W → Assembler W → Assembler W
  settle key now a = record a {
    pending = remove a.pending key;
    finished = store a.finished key now;
  }

  abbrev pub is_full : Group W → Bool
  is_full item = item.count == 63 && all_full item.parts

  -- a group that must go on where the last one stopped
  unfoldable pub extend : ℕ → Group W → List ℕ → Continuation W → Assembler W → Fed W
  extend key item raw c a =
      let combined = c.held ++ raw in
      if length combined == c.declared
      then (
        add_stat 1 continued_access_units (add_stat 1 access_units a),
        ok (some (combined, c.timestamp)),
      )
      else if ltb (length combined) c.declared && is_full item
      then (
        record a {
          continuation = some (record c { held = combined; next_id = bit_and (key + 1) 255 });
        },
        ok none,
      )
      else (add_stat 1 length_mismatched a, ok none)

  abbrev pub start_with : ℕ → W → Group W → List ℕ → Assembler W → AccessUnitHeader → Fed W
  start_with key now item raw a header =
      if length raw - 16 == header.declared_length
      then (add_stat 1 access_units a, ok (some (drop 16 raw, header.timestamp_ms_candidate)))
      else if ltb (length raw - 16) header.declared_length
          && leb header.declared_length 2000000
          && is_full item
      then (
        record a {
          continuation = some (record {
            held = drop 16 raw;
            declared = header.declared_length;
            timestamp = header.timestamp_ms_candidate;
            next_id = bit_and (key + 1) 255;
            begun = now;
          });
        },
        ok none,
      )
      else (add_stat 1 length_mismatched a, ok none)

  abbrev pub start_parsed :
      ℕ → W → Group W → List ℕ → Assembler W → Result MediaError AccessUnitHeader → Fed W
  start_parsed key now item raw a (err e) = (add_stat 1 invalid_header a, ok none)
  start_parsed key now item raw a (ok header) = start_with key now item raw a header

  unfoldable pub start_unit : ℕ → W → Group W → List ℕ → Assembler W → Fed W
  start_unit key now item raw a = start_parsed key now item raw a (parse_access_unit raw)

  abbrev pub continue_or_start :
      ℕ → W → Group W → List ℕ → Assembler W → Option (Continuation W) → Fed W
  continue_or_start key now item raw a none = start_unit key now item raw a
  continue_or_start key now item raw a (some c) =
      let b : Assembler W = record a { continuation = none } in
      if key == c.next_id && not (begins_unit raw)
      then extend key item raw c b
      else start_unit key now item raw (add_stat 1 continuation_gap b)

  abbrev pub after_join : ℕ → W → Group W → Assembler W → Option (List ℕ) → Fed W
  after_join key now item a none = (a, err missing_part)
  after_join key now item a (some raw) = continue_or_start key now item raw a a.continuation

  -- a group with all of its parts
  unfoldable pub complete : ℕ → W → Group W → Assembler W → Fed W
  complete key now item a =
      after_join key now item (settle key now a) (join_parts item.parts 0 item.count)

  abbrev pub conflict : ℕ → W → Assembler W → Fed W
  conflict key now a = (settle key now (add_stat 1 conflicts a), ok none)

  abbrev pub gather_part : MediaFragment → W → Group W → Assembler W → Option (List ℕ) → Fed W
  gather_part fragment now item a (some part) =
      if same_bytes part fragment.payload
      then (add_stat 1 duplicates a, ok none)
      else conflict fragment.frame_id now a
  gather_part fragment now item a none =
      let parts = store item.parts fragment.fragment_index fragment.payload in
      let grown = record item { parts = parts } in
      let b = record a { pending = store a.pending fragment.frame_id grown } in
      if length parts == item.count then complete fragment.frame_id now grown b else (b, ok none)

  unfoldable pub gather : MediaFragment → W → Group W → Assembler W → Fed W
  gather fragment now item a =
      if item.count == fragment.fragment_count
      then gather_part fragment now item a (lookup item.parts fragment.fragment_index)
      else conflict fragment.frame_id now a

  -- pending.setdefault(key, dict(time=now, count=fragment_count, parts={}))
  abbrev pub or_new : MediaFragment → W → Option (Group W) → Group W
  or_new fragment now (some item) = item
  or_new fragment now none = record { started = now; count = fragment.fragment_count; parts = [] }

  abbrev pub admit : MediaFragment → W → Assembler W → Fed W
  admit fragment now a =
      let item = or_new fragment now (lookup a.pending fragment.frame_id) in
      if has a.finished fragment.frame_id
      then (add_stat 1 late_duplicates a, ok none)
      else gather fragment now item (record a { pending = store a.pending fragment.frame_id item })

  unfoldable pub feed_fragment : MediaFragment → W → Assembler W → Fed W
  feed_fragment fragment now a = admit fragment now (forget now a)

  abbrev pub feed_parsed : W → Assembler W → Result MediaError MediaFragment → Fed W
  feed_parsed now a (err e) = (a, err (bad_fragment e))
  feed_parsed now a (ok fragment) = feed_fragment fragment now a

  unfoldable pub feed_datagram : List ℕ → W → Assembler W → Fed W
  feed_datagram octets now a = feed_parsed now a (parse_fragment octets)
