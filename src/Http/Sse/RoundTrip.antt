-- ===== src/Http/Sse/RoundTrip.antt =====
-- An event that a server writes arrives as it was written.
use hai_code.Base.{
  Bytes, ◌≡◌, refl, ap, ◌∙◌, true, false, List, [], ◌∷◌, ◌++◌, codes, drop, starts_with, All, arith,
}
use hai_code.Permission.Path.{is_empty}
use hai_code.Http.Sse.{
  SseCallback, ParseState, Parsed, newline, chomp, drop_blank, join_data, on_line, end_event, field,
  drain,
}
use hai_code.Http.Sse.Chunks.{no_newline, drain-line, drain_next}

-- A line of a field is written as it stands and read as it was written.
unfoldable pub IsLine : Bytes → Type 0
IsLine line = (no_newline line ≡ true) × (chomp line ≡ line)

pub event_line : Bytes → Bytes
event_line t = codes "event: " ++ t

pub data_line : Bytes → Bytes
data_line d = codes "data: " ++ d

pub data_lines : List Bytes → Bytes → Bytes
data_lines [] rest = rest
data_lines (d ∷ ds) rest = data_line d ++ newline ∷ data_lines ds rest

-- What a server writes for an event with data of several lines, before what follows it.
pub encode : Bytes → List Bytes → Bytes → Bytes
encode t ds rest = event_line t ++ newline ∷ data_lines ds (newline ∷ rest)

-- The lines with line ends between them, drop those of `before`.
unfoldable pub payload_from : Bytes → List Bytes → Bytes
payload_from before [] = before
payload_from before (d ∷ ds) = payload_from (before ++ newline ∷ d) ds

unfoldable pub payload_of : Bytes → List Bytes → Bytes
payload_of d ds = payload_from d ds

data_line-no_newline : (d : Bytes) → no_newline d ≡ true → no_newline (data_line d) ≡ true
unfolding data_line
data_line-no_newline d h = h

event_line-no_newline : (t : Bytes) → no_newline t ≡ true → no_newline (event_line t) ≡ true
unfolding event_line
event_line-no_newline t h = h

join_data_some : (e d : Bytes) → is_empty e ≡ false → join_data e d ≡ e ++ newline ∷ d
unfolding join_data is_empty
join_data_some [] d h = cc
join_data_some (c ∷ e) d h = refl

is_empty-append : (e d : Bytes) → is_empty e ≡ false → is_empty (e ++ d) ≡ false
unfolding is_empty
is_empty-append [] d h = cc
is_empty-append (c ∷ e) d h = refl

join_data_fresh : (e d : Bytes) → e ≡ [] → join_data e d ≡ d
unfolding join_data
join_data_fresh e d h = rw h refl

is_empty-payload_from :
    (before : Bytes) (ds : List Bytes)
    → is_empty before ≡ false
    → is_empty (payload_from before ds) ≡ false
unfolding payload_from
is_empty-payload_from before [] h = h
is_empty-payload_from before (d ∷ ds) h =
    is_empty-payload_from (before ++ newline ∷ d) ds (is_empty-append before (newline ∷ d) h)

module _ (callback : SseCallback) where
  drain_whole_line :
      (line rest : Bytes) (p : ParseState)
      → no_newline line ≡ true
      → (on_line callback (chomp line) p).1 ≡ true
      → drain callback [] (line ++ newline ∷ rest) p
        ≡ drain callback [] rest (on_line callback (chomp line) p).0
  drain_whole_line line rest p h g =
      drain-line callback line [] (newline ∷ rest) p h
      ∙ drain_next callback line newline rest p refl g

  chomp_blank : (line : Bytes) → chomp (32 ∷ line) ≡ 32 ∷ chomp line
  unfolding chomp
  chomp_blank [] = refl
  chomp_blank (c ∷ line) = refl

  chomp-data_line : (d : Bytes) → chomp (data_line d) ≡ data_line (chomp d)
  unfolding data_line chomp
  chomp-data_line d = ap (λ (r : Bytes). codes "data:" ++ r) (chomp_blank d)

  chomp-event_line : (t : Bytes) → chomp (event_line t) ≡ event_line (chomp t)
  unfolding event_line chomp
  chomp-event_line t = ap (λ (r : Bytes). codes "event:" ++ r) (chomp_blank t)

  on_line-data_line :
      (d : Bytes) (p : ParseState)
      → on_line callback (data_line d) p
        ≡ (record p { event_data = join_data p.event_data d }, true)
  unfolding data_line on_line field starts_with drop drop_blank is_empty
  on_line-data_line d p = refl

  on_line-event_line :
      (t : Bytes) (p : ParseState)
      → on_line callback (event_line t) p ≡ (record p { event_type = t }, true)
  unfolding event_line on_line field starts_with drop drop_blank is_empty
  on_line-event_line t p = refl

  drain-data_line :
      (d rest : Bytes) (p : ParseState)
      → IsLine d
      → drain callback [] (data_line d ++ newline ∷ rest) p
        ≡ drain callback [] rest (record p { event_data = join_data p.event_data d })
  unfolding IsLine
  drain-data_line d rest p (line, cut) =
      let read : on_line callback (chomp (data_line d)) p
          ≡ (record p { event_data = join_data p.event_data d }, true) =
        rw (chomp-data_line d, cut) (on_line-data_line d p) in
      drain_whole_line (data_line d) rest p (data_line-no_newline d line)
        (ap (λ (x : Parsed). x.1) read)
      ∙ ap (λ (x : Parsed). drain callback [] rest x.0) read

  drain-event_line :
      (t rest : Bytes) (p : ParseState)
      → IsLine t
      → drain callback [] (event_line t ++ newline ∷ rest) p
        ≡ drain callback [] rest (record p { event_type = t })
  unfolding IsLine
  drain-event_line t rest p (line, cut) =
      let read : on_line callback (chomp (event_line t)) p ≡ (record p { event_type = t }, true) =
        rw (chomp-event_line t, cut) (on_line-event_line t p) in
      drain_whole_line (event_line t) rest p (event_line-no_newline t line)
        (ap (λ (x : Parsed). x.1) read)
      ∙ ap (λ (x : Parsed). drain callback [] rest x.0) read

  drain-data_lines :
      (ds : List Bytes) (rest : Bytes) (p : ParseState)
      → All IsLine ds
      → is_empty p.event_data ≡ false
      → drain callback [] (data_lines ds rest) p
        ≡ drain callback [] rest (record p { event_data = payload_from p.event_data ds })
  unfolding data_lines payload_from
  drain-data_lines [] rest p a h = refl
  drain-data_lines (d ∷ ds) rest p a h =
      let joins = join_data_some p.event_data d h in
      drain-data_line d (data_lines ds rest) p a.0
      ∙ rw joins (
          drain-data_lines ds rest (record p { event_data = p.event_data ++ newline ∷ d }) a.1
            (is_empty-append p.event_data (newline ∷ d) h))

  drain-end_event :
      (rest : Bytes) (p : ParseState)
      → is_empty p.event_data ≡ false
      → callback p.delivered (record { event = p.event_type; payload = p.event_data }) ≡ true
      → drain callback [] (newline ∷ rest) p
        ≡ drain callback [] rest (record p {
          event_type = [];
          event_data = [];
          delivered = record { event = p.event_type; payload = p.event_data } ∷ p.delivered;
        })
  unfolding on_line end_event is_empty chomp
  drain-end_event rest p h ok =
      let read : on_line callback [] p ≡ (
        record p {
          event_type = [];
          event_data = [];
          delivered = record { event = p.event_type; payload = p.event_data } ∷ p.delivered;
        },
        true,
      ) =
        ground arith in
      drain_whole_line [] rest p refl (ap (λ (x : Parsed). x.1) read)
      ∙ ap (λ (x : Parsed). drain callback [] rest x.0) read

  -- An event as a server writes it, one `event:` line and one `data:` line for each line of its data,
  -- comes to one call of the callback, with the type and with the lines joined by line ends, and the
  -- rest of the stream is read from there. The lines have no line end in them and no carriage return
  -- that `chomp` drops, the first one is not empty, no data is pending, and the callback wants to go on.
  pub drain-encode :
      (t d : Bytes) (ds : List Bytes) (rest : Bytes) (p : ParseState)
      → IsLine t
      → IsLine d
      → All IsLine ds
      → is_empty d ≡ false
      → p.event_data ≡ []
      → callback p.delivered (record { event = t; payload = payload_of d ds }) ≡ true
      → drain callback [] (encode t (d ∷ ds) rest) p
        ≡ drain callback [] rest (record p {
          event_type = [];
          event_data = [];
          delivered = record { event = t; payload = payload_of d ds } ∷ p.delivered;
        })
  unfolding encode data_lines payload_of
  drain-encode t d ds rest p ht hd hs some_data fresh ok =
      let typed : ParseState = record p { event_type = t } in
      let first : join_data p.event_data d ≡ d = join_data_fresh p.event_data d fresh in
      let q : ParseState = record p { event_type = t; event_data = payload_from d ds } in
      drain-event_line t (data_line d ++ newline ∷ data_lines ds (newline ∷ rest)) p ht
      ∙ drain-data_line d (data_lines ds (newline ∷ rest)) typed hd
      ∙ rw first
          (drain-data_lines ds (newline ∷ rest) (record typed { event_data = d }) hs some_data)
      ∙ drain-end_event rest q (is_empty-payload_from d ds some_data) ok
