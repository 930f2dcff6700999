-- ===== src/Pipeline/Ingest/Spacing.antt =====
-- pkg/pipeline/pipeline.go, IngestFromReader: the filter in the loop over the lines.
use go_proxy.Base.{
  ◌+◌, ◌≤◌, ◌≡◌, refl, sym, ap, ◌∙◌, Bool, true, false, Option, none, some, some_inj, List, [], ◌∷◌,
  arith, ltb, ltb→lt, Bool-cases, inl, inr,
}
use go_proxy.Base.Int.{ℤ}
use go_proxy.Base.Text.{Text}
use go_proxy.Model.Proxy.{Time, Protocol}
use go_proxy.Pipeline.Dedup.{Deduplicator, check_and_set, cleanup}
use go_proxy.Pipeline.Dedup.Shards.{IsValid}
use go_proxy.Pipeline.Dedup.Window.{Event, request, tick, run, react, Until, accepted_once}
use go_proxy.Pipeline.Jobs.Defs.{Job, Parsers}
use go_proxy.Pipeline.Ingest.Defs.{
  Intake, dedup_key, read_line, admit_decided, admit, admit_parsed, ingest_line, Happening,
  line_read, cleaned, ingest_happenings,
}

abbrev request_of : Time → Option Job → List Event → List Event
request_of now none es = es
request_of now (some j) es = request now (dedup_key j) ∷ es

abbrev pub happens_at : Happening → Time
happens_at (line_read now text) = now
happens_at (cleaned now) = now

-- All lines are read, and all ticks come, at `t` or before.
abbrev pub HappenUntil : Time → List Happening → Type 0
HappenUntil t [] = Unit
HappenUntil t (h ∷ rest) = (happens_at h ≤ t) × HappenUntil t rest

module _ (ps : Parsers) (port : ℤ) (proto : Protocol) where
  -- What the lines and the ticks ask of the filter.
  requests : List Happening → List Event
  requests [] = []
  requests (line_read now text ∷ rest) =
      request_of now (read_line ps port proto text) (requests rest)
  requests (cleaned now ∷ rest) = tick now ∷ requests rest

  admit_decided-dedup :
      (j : Job) (r : Bool × Deduplicator) (s : Intake) → (admit_decided j r s).1.dedup ≡ r.1
  admit_decided-dedup j (true, d) s = refl
  admit_decided-dedup j (false, d) s = refl

  admitted :
      (j i : Job) (r : Bool × Deduplicator) (s : Intake)
      → (admit_decided j r s).0 ≡ some i
      → (r.0 ≡ true) × (j ≡ i)
  admitted j i (true, d) s e = (refl, some_inj e)
  admitted j i (false, d) s e = cc

  admit_parsed-dedup :
      (now : Time) (o : Option Job) (s : Intake) (es : List Event)
      → run (request_of now o es) s.dedup ≡ run es (admit_parsed now o s).1.dedup
  unfolding admit run react
  admit_parsed-dedup now none s es = refl
  admit_parsed-dedup now (some j) s es =
      ap (run es) (sym (admit_decided-dedup j (check_and_set now (dedup_key j) s.dedup) s))

  ingest_happenings-dedup :
      (hs : List Happening) (s : Intake)
      → (ingest_happenings ps port proto hs s).dedup ≡ run (requests hs) s.dedup
  unfolding ingest_happenings ingest_line requests run react
  ingest_happenings-dedup [] s = refl
  ingest_happenings-dedup (line_read now text ∷ rest) s =
      ingest_happenings-dedup rest (ingest_line ps port proto now text s).1
      ∙ sym (admit_parsed-dedup now (read_line ps port proto text) s (requests rest))
  ingest_happenings-dedup (cleaned now ∷ rest) s =
      ingest_happenings-dedup rest (record s { dedup = cleanup now s.dedup })

  Until-requests : (t : Time) (hs : List Happening) → HappenUntil t hs → Until t (requests hs)
  unfolding requests
  Until-requests t [] u = tt
  Until-requests t (line_read now text ∷ rest) u =
      go (read_line ps port proto text) u.0 (Until-requests t rest u.1)
    where
      go :
          (o : Option Job)
          → now ≤ t
          → Until t (requests rest)
          → Until t (request_of now o (requests rest))
      go none h v = v
      go (some j) h v = (h, v)
  Until-requests t (cleaned now ∷ rest) u = (u.0, Until-requests t rest u.1)

  from_line :
      (now : Time) (o : Option Job) (s : Intake) (i : Job)
      → (admit_parsed now o s).0 ≡ some i
      → ((check_and_set now (dedup_key i) s.dedup).0 ≡ true)
        × ((admit_parsed now o s).1.dedup ≡ (check_and_set now (dedup_key i) s.dedup).1)
  unfolding admit
  from_line now none s i e = cc
  from_line now (some j) s i e =
      let r = check_and_set now (dedup_key j) s.dedup in
      let (accepted, same) = admitted j i r s e in
      (
        ap (λ k. (check_and_set now (dedup_key k) s.dedup).0) (sym same) ∙ accepted,
        admit_decided-dedup j r s ∙ ap (λ k. (check_and_set now (dedup_key k) s.dedup).1) same,
      )

  -- If IngestFromReader, with a well-formed filter, sends a job at the time `s` and another job
  -- with the same key at the time `t`, with any lines read and any ticks of cleanupLoop in
  -- between, all at `t` at the latest, then at least the window of the filter lies between the
  -- two times.
  pub queued_apart :
      (s t : Time) (first second : Text) (between : List Happening) (i j : Job) (start : Intake)
      → IsValid start.dedup
      → (ingest_line ps port proto s first start).0 ≡ some i
      → (ingest_line ps port proto t second
          (ingest_happenings ps port proto between (ingest_line ps port proto s first start).1)).0
        ≡ some j
      → dedup_key i ≡ dedup_key j
      → HappenUntil t between
      → s + start.dedup.window ≤ t
  unfolding ingest_line
  queued_apart s t first second between i j start v e1 e2 same u =
      let (accepted, after) = from_line s (read_line ps port proto first) start i e1 in
      let middle =
        ingest_happenings ps port proto between (ingest_line ps port proto s first start).1 in
      let (again, _) = from_line t (read_line ps port proto second) middle j e2 in
      let dedup =
        ingest_happenings-dedup between (ingest_line ps port proto s first start).1
        ∙ ap (run (requests between)) after in
      elim (Bool-cases (ltb t (s + start.dedup.window))) [
        | inl soon ↦
            let refused =
              accepted_once s t (dedup_key i) (requests between) start.dedup v accepted
                (Until-requests t between u) (ltb→lt t (s + start.dedup.window) soon) in
            let at_middle : (check_and_set t (dedup_key j) middle.dedup).0 ≡ false =
              ap (λ k. (check_and_set t k middle.dedup).0) (sym same)
              ∙ ap (λ d. (check_and_set t (dedup_key i) d).0) dedup
              ∙ refused in
            cc (again, at_middle)
        | inr late ↦ ground (arith, late)
      ]
