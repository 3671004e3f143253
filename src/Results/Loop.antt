-- ===== src/Results/Loop.antt =====
-- The loop of get_results over what the loop of send_results has made.
use sber_wifi.Prelude.{
  ℕ, ◌≡◌, refl, sym, ap, ◌∙◌, ◌≢◌, inl, inr, true, false, not, ◌&&◌, Option, none, some, List, [],
  ◌∷◌, map, arith, ◌==◌, if◌then◌else◌, Option-cases,
}
use sber_wifi.Prelude.Int.{ℤ, pos, negsuc, eq_ℤ}
use sber_wifi.Prelude.Float.{Float}
use mathlib.Core.Path.{subst}
use sber_wifi.Error.{IErr, ie_streamid}
use sber_wifi.Json.{Json, JsonLaws}
use sber_wifi.Ids.{Numbered}
use sber_wifi.Results.{seconds_between, bytes_of, JsonMore, StreamResults, stream_object}
use sber_wifi.Results.Reading.{
  Report, read_stream, set_stream, take_report, read_streams, store, stored, cons_to,
}
use sber_wifi.Results.Reports.{MoreLaws, Fits, report, read_stream-stream_object}

module _ (F : Float) (J : Json) (M : JsonMore J F) (laws : JsonLaws J) (more : MoreLaws J F M) where
  abbrev pub Streams : Type 0
  Streams = List (Numbered (StreamResults F))

  -- No stream has the number.
  unfoldable pub Absent : ℕ → Streams → Type 0
  Absent id [] = Unit
  Absent id (n ∷ l) = (n.id ≢ id) × Absent id l

  -- The streams of the two ends have the same numbers, each of them once.
  unfoldable pub Paired : Streams → Streams → Type 0
  unfolding Absent
  Paired [] l = l ≡ []
  Paired (n ∷ l) [] = true ≡ false
  Paired (n ∷ l) (p ∷ r) = (p.id ≡ n.id) × Absent n.id l × Paired l r

  unfoldable pub AllFit : ℤ → Streams → Type 0
  AllFit has [] = Unit
  AllFit has (n ∷ l) = Fits F J M laws more has n × AllFit has l

  -- A stream with what its other end has measured.
  abbrev told : ℤ → StreamResults F → StreamResults F → StreamResults F
  told has other sp =
      let elapsed =
        F.sub (seconds_between F J M other.start_time other.end_time)
          (seconds_between F J M other.start_time other.start_time) in
      if sp.sender
      then record sp {
        jitter = other.jitter;
        cnt_error = other.cnt_error;
        peer_packet_count = other.packet_count;
        bytes_received = bytes_of F J M other;
        receiver_time = elapsed;
      }
      else record sp {
        peer_packet_count = other.packet_count;
        bytes_sent = bytes_of F J M other;
        stream_retrans =
            if other.sender && not (eq_ℤ has (pos 0)) then other.stream_retrans else negsuc 0;
        sender_time = elapsed;
      }

  -- Each stream with the report of its other end.
  unfoldable pub reported : ℤ → Streams → Streams → Streams
  reported has [] r = r
  reported has (n ∷ l) [] = []
  reported has (n ∷ l) (p ∷ r) = record p { stream = told has n.stream p.stream } ∷ reported has l r

  abbrev under : Numbered (StreamResults F) → Option IErr × Streams → Option IErr × Streams
  under p (error, l) = (error, p ∷ l)

  -- A round of the loop over an object that is a report.
  read_streams-step :
      (o : J.Object) (os : List J.Object) (error : Option IErr) (l : Streams) (r : Report F J M)
      (set : Option Streams)
      → read_stream F J M o ≡ some r
      → set_stream F J M r l ≡ set
      → read_streams F J M (o ∷ os) error l
        ≡ read_streams F J M os (stored F J M error l set).0 (stored F J M error l set).1
  unfolding read_streams
  read_streams-step o os error l r set read found =
      ap (λ x. read_streams F J M os (store F J M error l x).0 (store F J M error l x).1) read
      ∙ ap (λ x. read_streams F J M os (stored F J M error l x).0 (stored F J M error l x).1) found

  set_stream-other :
      (r : Report F J M) (p : Numbered (StreamResults F)) (l : Streams)
      → eq_ℤ (pos p.id) r.sid ≡ false
      → set_stream F J M r (p ∷ l) ≡ cons_to F J M p (set_stream F J M r l)
  unfolding set_stream
  set_stream-other r p l other = rw other refl

  set_stream-same :
      (r : Report F J M) (p : Numbered (StreamResults F)) (l : Streams)
      → eq_ℤ (pos p.id) r.sid ≡ true
      → set_stream F J M r (p ∷ l) ≡ some (record p { stream = take_report F J M r p.stream } ∷ l)
  unfolding set_stream
  set_stream-same r p l same = rw same refl

  -- A stream that no report is for stays as it is.
  read_streams-Absent :
      (has : ℤ) (p : Numbered (StreamResults F)) (l r : Streams) (error : Option IErr)
      → Absent p.id l
      → AllFit has l
      → read_streams F J M (map (stream_object F J M has) l) error (p ∷ r)
        ≡ under p (read_streams F J M (map (stream_object F J M has) l) error r)
  unfolding Absent AllFit read_streams
  read_streams-Absent has p [] r error absent fits = refl
  read_streams-Absent has p (n ∷ l) r error absent fits =
      let os = map (stream_object F J M has) l in
      let rep : Report F J M = report F J M laws more has n in
      let read = read_stream-stream_object F J M laws more has n fits.0 in
      let other : (p.id == n.id) ≡ false = ground (arith, absent.0) in
      let step = read_streams-step (stream_object F J M has n) os error in
      elim (Option-cases (set_stream F J M rep r)) [
        | inl missing ↦
            step (p ∷ r) rep none read
              (set_stream-other rep p r other ∙ ap (cons_to F J M p) missing)
            ∙ read_streams-Absent has p l r (some ie_streamid) absent.1 fits.1
            ∙ sym (ap (under p) (step r rep none read missing))
        | inr (r', found) ↦
            step (p ∷ r) rep (some (p ∷ r')) read
              (set_stream-other rep p r other ∙ ap (cons_to F J M p) found)
            ∙ read_streams-Absent has p l r' error absent.1 fits.1
            ∙ sym (ap (under p) (step r rep (some r') read found))
      ]

  -- All the reports find their streams.
  pub read_streams-Paired :
      (has : ℤ) (l r : Streams)
      → Paired l r
      → AllFit has l
      → read_streams F J M (map (stream_object F J M has) l) none r ≡ (none, reported has l r)
  unfolding Paired AllFit reported read_streams
  read_streams-Paired has [] r paired fits = refl
  read_streams-Paired has (n ∷ l) [] paired fits = absurd (ground arith)
  read_streams-Paired has (n ∷ l) (p ∷ r) (same, absent, paired) fits =
      let os = map (stream_object F J M has) l in
      let rep : Report F J M = report F J M laws more has n in
      let read = read_stream-stream_object F J M laws more has n fits.0 in
      let found : (p.id == n.id) ≡ true = ground (arith, same) in
      let p' : Numbered (StreamResults F) = record p { stream = take_report F J M rep p.stream } in
      read_streams-step (stream_object F J M has n) os none (p ∷ r) rep (some (p' ∷ r)) read
        (set_stream-same rep p r found)
      ∙ read_streams-Absent has p' l r none (subst (λ i. Absent i l) (sym same) absent) fits.1
      ∙ ap (under p') (read_streams-Paired has l r paired fits.1)
