-- ===== src/Results/Reports.antt =====
-- What get_results reads of the object that send_results makes of a stream.
use sber_wifi.Prelude.{
  ℕ, ◌-◌, ◌^◌, ◌≤◌, ◌≡◌, refl, sym, ap, ◌∙◌, some, List, [], ◌∷◌, ◌++◌, map, arith,
}
use sber_wifi.Prelude.Int.{ℤ, pos, negsuc, ◌≤ℤ◌}
use sber_wifi.Prelude.Float.{Float}
use mathlib.Core.List.{append-nil, append_assoc}
use sber_wifi.Libc.{Text, int_of_long, int_of_pattern, same_ignoring_case, to_lower}
use sber_wifi.Dscp.{codes}
use sber_wifi.Json.{Json, JsonLaws, first_field, get-fields}
use sber_wifi.Params.{u64_of}
use sber_wifi.Ids.{Numbered}
use sber_wifi.Results.{
  JsonMore, StreamResults, bytes_of, retransmits_of, seconds_between, stream_fields, stream_object,
  add_streams_to,
}
use sber_wifi.Results.Reading.{Report, read_stream}

pub record MoreLaws (J : Json) (F : Float) (M : JsonMore J F) : Type 0 where
  pub double : (d : F.Double) → M.valuedouble (M.create_double d) ≡ d
  pub no_items : M.array_items (M.array_item M.create_array) ≡ []
  pub more_items :
      (o : J.Object) (a : M.Array)
      → M.array_items (M.array_item (M.add_to_array o a))
        ≡ M.array_items (M.array_item a) ++ (o ∷ [])

-- The values of an int.
unfoldable pub IsInt : ℤ → Type 0
IsInt n = (negsuc (2 ^ 31 - 1) ≤ℤ n) × (n ≤ℤ pos (2 ^ 31 - 1))

int_of_long-IsInt : (n : ℤ) → IsInt n → int_of_long n ≡ n
unfolding int_of_long int_of_pattern IsInt
int_of_long-IsInt n bounds = ground arith

module _ (F : Float) (J : Json) (M : JsonMore J F) (laws : JsonLaws J) (more : MoreLaws J F M) where
  -- The numbers of a stream that the two programs can exchange: ints, and a count of bytes that a
  -- double holds.
  pub record Fits (has : ℤ) (n : Numbered (StreamResults F)) : Type 0 where
    pub id : IsInt (pos n.id)
    pub errors : IsInt n.stream.cnt_error
    pub packets : IsInt n.stream.packet_count
    pub retransmits : IsInt (retransmits_of F J M has n.stream)
    pub bytes : bytes_of F J M n.stream ≤ 2 ^ 53

  -- What the report of a stream says.
  abbrev pub report : ℤ → Numbered (StreamResults F) → Report F J M
  report has n =
      let sp = n.stream in
      record {
        sid = pos n.id;
        bytes_transferred = bytes_of F J M sp;
        retransmits = retransmits_of F J M has sp;
        jitter = sp.jitter;
        cerror = sp.cnt_error;
        pcount = sp.packet_count;
        time =
            F.sub (seconds_between F J M sp.start_time sp.end_time)
              (seconds_between F J M sp.start_time sp.start_time);
      }

  got :
      (name : Text) (has : ℤ) (n : Numbered (StreamResults F))
      → J.get_item name (stream_object F J M has n) ≡ first_field J name (stream_fields F J M has n)
  unfolding stream_object
  got name has n = get-fields J laws name (stream_fields F J M has n)

  pub number_read : (n : ℤ) → IsInt n → int_of_long (J.valueint (J.create_number n)) ≡ n
  unfolding IsInt
  number_read n bounds =
      ap int_of_long (laws.number n (omega (arith, bounds))) ∙ int_of_long-IsInt n bounds

  bytes_read : (n : ℕ) → n ≤ 2 ^ 53 → u64_of (J.valueint (J.create_number (pos n))) ≡ n
  unfolding u64_of
  bytes_read n bound = let exact = laws.number (pos n) (omega (arith, bound)) in ground arith

  -- The report that get_results reads of a stream is the one that send_results wrote.
  pub read_stream-stream_object :
      (has : ℤ) (n : Numbered (StreamResults F))
      → Fits has n
      → read_stream F J M (stream_object F J M has n) ≡ some (report has n)
  unfolding read_stream first_field stream_fields same_ignoring_case to_lower
  read_stream-stream_object has n fits =
      rw
        (
          got (codes "id") has n,
          got (codes "bytes") has n,
          got (codes "retransmits") has n,
          got (codes "jitter") has n,
          got (codes "errors") has n,
          got (codes "packets") has n,
          got (codes "start_time") has n,
          got (codes "end_time") has n,
        )
        (rw
          (
            number_read (pos n.id) fits.id,
            bytes_read (bytes_of F J M n.stream) fits.bytes,
            number_read (retransmits_of F J M has n.stream) fits.retransmits,
            number_read n.stream.cnt_error fits.errors,
            number_read n.stream.packet_count fits.packets,
            more.double n.stream.jitter,
            more.double (seconds_between F J M n.stream.start_time n.stream.start_time),
            more.double (seconds_between F J M n.stream.start_time n.stream.end_time),
          )
          refl)

  -- The array answers with the objects of the streams, in their order.
  items-add_streams_to :
      (has : ℤ) (l : List (Numbered (StreamResults F))) (a : M.Array)
      → M.array_items (M.array_item (add_streams_to F J M has l a))
        ≡ M.array_items (M.array_item a) ++ map (stream_object F J M has) l
  unfolding add_streams_to
  items-add_streams_to has [] a = sym (append-nil (M.array_items (M.array_item a)))
  items-add_streams_to has (n ∷ l) a =
      let o = stream_object F J M has n in
      items-add_streams_to has l (M.add_to_array o a)
      ∙ ap (λ x. x ++ map (stream_object F J M has) l) (more.more_items o a)
      ∙ append_assoc (M.array_items (M.array_item a)) (o ∷ []) (map (stream_object F J M has) l)

  -- From an empty array.
  pub items-streams :
      (has : ℤ) (l : List (Numbered (StreamResults F)))
      → M.array_items (M.array_item (add_streams_to F J M has l M.create_array))
        ≡ map (stream_object F J M has) l
  items-streams has l =
      items-add_streams_to has l M.create_array
      ∙ ap (λ x. x ++ map (stream_object F J M has) l) more.no_items
