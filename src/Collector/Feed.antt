-- ===== src/Collector/Feed.antt =====
-- analysis/dji_wifi_media.py: the collector and its methods.
use openframetap.Prelude.{
  ℕ, suc, Bool, Option, none, some, List, [], ◌∷◌, ◌++◌, ◌==◌, if◌then◌else◌, not, ◌+◌, ◌&&◌, ◌||◌,
  ltb, length, Result, ok, err, reject_if, ◌>>◌,
}
use openframetap.Floats.{Floats, nought}
use openframetap.Bytes.{same_bytes}
use openframetap.Dicts.{lookup, store}
use openframetap.Media.{
  AccessUnitHeader, MediaError, parse_access_unit, is_access_unit_start, retransmission_generation,
}
use openframetap.Collector.{
  Observation, Assembly, ReconstructedFrame, finalize, finalize_all, sort_frames, count_up,
}

pub record Collector (W : Type 0) : Type 0 where
  pub orphan_window_seconds : W
  pub active : List (ℕ × Assembly W)
  pub pending : List (Observation W)
  pub completed : List (ReconstructedFrame W)
  pub orphan_fragment_count : ℕ
  pub bogus_start_fragment_count : ℕ

pub data CollectorError : Type 0 where
  window_not_positive : CollectorError

module _ {W : Type 0} ⦃f : Floats W⦄ where
  unfoldable pub new_collector : W → Result CollectorError (Collector W)
  new_collector seconds = do
    reject_if (f.le seconds nought) window_not_positive
    ok (record {
      orphan_window_seconds = seconds;
      active = [];
      pending = [];
      completed = [];
      orphan_fragment_count = 0;
      bogus_start_fragment_count = 0;
    })

  -- (generation, timestamp) < (previous generation, previous timestamp)
  abbrev pub is_earlier : Observation W → Observation W → Bool
  is_earlier seen previous =
      let a = retransmission_generation seen.fragment in
      let b = retransmission_generation previous.fragment in
      ltb a b || (a == b && f.lt seen.capture_timestamp previous.capture_timestamp)

  abbrev pub add_known : Observation W → Assembly W → Observation W → Assembly W
  add_known seen a previous =
      let b = record a { duplicate_count = a.duplicate_count + 1 } in
      if same_bytes previous.fragment.payload seen.fragment.payload then b else record b {
        conflicting_duplicate_count = a.conflicting_duplicate_count + 1;
        fragments =
            if is_earlier seen previous
            then store a.fragments seen.fragment.fragment_index seen
            else a.fragments;
      }

  abbrev pub add_seen : Observation W → Assembly W → Option (Observation W) → Assembly W
  add_seen seen a none = record a {
    fragments = store a.fragments seen.fragment.fragment_index seen;
  }
  add_seen seen a (some previous) = add_known seen a previous

  -- `_Assembly.add`
  unfoldable pub add_fragment : Observation W → Assembly W → Assembly W
  unfolding retransmission_generation
  add_fragment seen a =
      add_seen seen
        (record a {
          retransmission_generations =
              count_up a.retransmission_generations (retransmission_generation seen.fragment);
        })
        (lookup a.fragments seen.fragment.fragment_index)

  abbrev pub new_assembly : Observation W → AccessUnitHeader → Assembly W
  new_assembly start header = record {
    start = start;
    header = header;
    fragments = [];
    duplicate_count = 0;
    conflicting_duplicate_count = 0;
    retransmission_generations = [];
  }

  abbrev pub magnitude : W → W
  magnitude x = if f.lt x nought then f.neg x else x

  -- abs(a - b) <= window
  abbrev pub is_near : Collector W → W → W → Bool
  is_near c a b = f.le (magnitude (f.sub a b)) c.orphan_window_seconds

  -- `_expire_pending`: what stays, and how many do not
  abbrev pub retain : W → W → List (Observation W) → List (Observation W) × ℕ
  retain window now [] = ([], 0)
  retain window now (seen ∷ rest) =
      let (kept, gone) = retain window now rest in
      if f.lt window (f.sub now seen.capture_timestamp)
      then (kept, suc gone)
      else (seen ∷ kept, gone)

  unfoldable pub expire_orphans : W → Collector W → Collector W
  expire_orphans now c =
      let (kept, gone) = retain c.orphan_window_seconds now c.pending in
      record c { pending = kept; orphan_fragment_count = c.orphan_fragment_count + gone }

  abbrev pub is_awaited : Collector W → Observation W → Observation W → Bool
  is_awaited c start seen =
      seen.fragment.frame_id == start.fragment.frame_id
      && seen.fragment.fragment_count == start.fragment.fragment_count
      && not (seen.fragment.fragment_index == 0)
      && is_near c seen.capture_timestamp start.capture_timestamp

  -- the loop over the fragments that came before their start
  abbrev pub adopt :
      Collector W
      → Observation W
      → List (Observation W)
      → Assembly W
      → Assembly W × List (Observation W)
  adopt c start [] a = (a, [])
  adopt c start (seen ∷ rest) a =
      let taken = adopt c start rest (add_fragment seen a) in
      let (b, retained) = adopt c start rest a in
      if is_awaited c start seen then taken else (b, seen ∷ retained)

  unfoldable pub begin_assembly : Observation W → AccessUnitHeader → Collector W → Collector W
  begin_assembly start header c =
      let (a, retained) =
        adopt c start c.pending (add_fragment start (new_assembly start header)) in
      record c { active = store c.active start.fragment.frame_id a; pending = retained }

  abbrev pub is_repeat : Collector W → Observation W → Assembly W → Bool
  is_repeat c seen current =
      current.start.fragment.fragment_count == seen.fragment.fragment_count
      && same_bytes current.start.fragment.payload seen.fragment.payload
      && is_near c seen.capture_timestamp current.start.capture_timestamp

  abbrev pub feed_start :
      Observation W → AccessUnitHeader → Collector W → Option (Assembly W) → Collector W
  feed_start seen header c none = begin_assembly seen header c
  feed_start seen header c (some current) =
      if is_repeat c seen current
      then record c { active = store c.active seen.fragment.frame_id (add_fragment seen current) }
      else begin_assembly seen header
          (record c { completed = c.completed ++ (finalize current ∷ []) })

  abbrev pub keep_pending : Observation W → Collector W → Collector W
  keep_pending seen c =
      let bogus = c.bogus_start_fragment_count in
      record c {
        bogus_start_fragment_count = if seen.fragment.fragment_index == 0 then bogus + 1 else bogus;
        pending = c.pending ++ (seen ∷ []);
      }

  abbrev pub feed_other : Observation W → Collector W → Option (Assembly W) → Collector W
  feed_other seen c none = keep_pending seen c
  feed_other seen c (some a) =
      if a.start.fragment.fragment_count == seen.fragment.fragment_count
        && is_near c seen.capture_timestamp a.start.capture_timestamp
      then record c { active = store c.active seen.fragment.frame_id (add_fragment seen a) }
      else keep_pending seen c

  -- The header of the start of an access unit may be refused, and `feed` raises.
  abbrev pub feed_header :
      Observation W
      → Collector W
      → Result MediaError AccessUnitHeader
      → Collector W × Result MediaError (Unit {0})
  feed_header seen c (err e) = (c, err e)
  feed_header seen c (ok header) =
      (feed_start seen header c (lookup c.active seen.fragment.frame_id), ok tt)

  unfoldable pub collect : Observation W → Collector W → Collector W × Result MediaError (Unit {0})
  unfolding is_access_unit_start parse_access_unit
  collect seen c =
      let b = expire_orphans seen.capture_timestamp c in
      if is_access_unit_start seen.fragment
      then feed_header seen b (parse_access_unit seen.fragment.payload)
      else (feed_other seen b (lookup b.active seen.fragment.frame_id), ok tt)

  unfoldable pub finish_frames : Collector W → Collector W × List (ReconstructedFrame W)
  finish_frames c =
      let completed = c.completed ++ finalize_all c.active in
      (
        record c {
          active = [];
          pending = [];
          completed = completed;
          orphan_fragment_count = c.orphan_fragment_count + length c.pending;
        },
        sort_frames completed,
      )
