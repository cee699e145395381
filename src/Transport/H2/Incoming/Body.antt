-- ===== src/Transport/H2/Incoming/Body.antt =====
-- What is known of a response between two frames of it.
use dog.Prelude.{
  ℕ, ◌≤◌, ◌≡◌, refl, Option, Bool, true, false, not, ◌&&◌, List, [], ◌∷◌, ◌++◌, arith, ◌==◌, leb,
  ltb, ltb→ge, if◌then◌else◌, length,
}
use dog.Transport.Errors.{Result, ok, err, panic, out_of_fuel}
use dog.Transport.Ends.{Ends, Any, Ends-bind, Ends-if}
use dog.Transport.Https.{max_body}
use dog.Transport.H2.Frames.{Frame, frame}
use dog.Transport.H2.Status.{status}
use dog.Transport.H2.Status.Total.{status-Ends}
use dog.Transport.H2.Incoming.{
  Incoming, empty, has_flag, split_padding, content, take_status, headers, data_frame, reply,
  goes_on, handle,
}

-- A body comes behind its headers, and fits a message.
pub record IsConsistent (incoming : Incoming) : Type 0 where
  pub short : length incoming.body ≤ max_body
  pub headed : incoming.headers ≡ false → length incoming.body ≡ 0
  pub open_before : incoming.headers ≡ false → incoming.ended ≡ false

pub empty-IsConsistent : IsConsistent empty
empty-IsConsistent = record { short = omega arith; headed = λ e. refl; open_before = λ e. refl }

abbrev pub IsNext : Incoming × Option (List ℕ) → Type 0
IsNext (incoming, back) = IsConsistent incoming

split_padding-Ends : (padded : Bool) (payload : List ℕ) → Ends Any (split_padding padded payload)
split_padding-Ends false payload = tt
split_padding-Ends true [] = tt
split_padding-Ends true (count ∷ rest) = tt

content-Ends : (f : Frame) → Ends Any (content f)
unfolding content
content-Ends f =
    Ends-bind Any Any (split_padding (has_flag f.flags 0x8) f.payload) _
      (split_padding-Ends (has_flag f.flags 0x8) f.payload)
      λ r split.
        Ends-bind Any Any (if f.kind == 0x1 && has_flag f.flags 0x20 then _ else _) _
          (Ends-if Any (f.kind == 0x1 && has_flag f.flags 0x20) _ _
            (λ h. Ends-if Any (leb 5 (length r.1)) _ _ (λ h. tt) (λ h. tt)) (λ h. tt))
          λ fields cut. Ends-if Any (leb r.0 (length fields)) _ _ (λ h. tt) (λ h. tt)

reply-Ends :
    (incoming : Incoming) (m : Result (List ℕ))
    → IsConsistent incoming
    → Ends Any m
    → Ends IsNext (reply incoming m)
reply-Ends incoming (ok bytes) h e = h
reply-Ends incoming (err w) h e = tt
reply-Ends incoming panic h e = absurd e
reply-Ends incoming out_of_fuel h e = absurd e

goes_on-Ends : (m : Result Incoming) → Ends IsConsistent m → Ends IsNext (goes_on m)
goes_on-Ends (ok next) h = h
goes_on-Ends (err w) h = tt
goes_on-Ends panic h = absurd h
goes_on-Ends out_of_fuel h = absurd h

frame-Ends : (kind flags stream : ℕ) (payload : List ℕ) → Ends Any (frame kind flags stream payload)
unfolding frame
frame-Ends kind flags stream payload =
    Ends-if Any (ltb 16384 (length payload)) _ _ (λ h. tt) (λ h. tt)

module _ (incoming : Incoming) (consistent : IsConsistent incoming) where
  take_status-IsConsistent :
      (ends : Bool) (code : ℕ) → Ends IsConsistent (take_status ends incoming code)
  unfolding take_status
  take_status-IsConsistent ends code =
      Ends-if IsConsistent (code == 200) _ _
        (λ good. record { short = consistent.short; headed = λ e. cc; open_before = λ e. cc })
        (λ other.
          Ends-if IsConsistent (leb 100 code && leb code 199) _ _ (λ informational. consistent)
            (λ bad. tt))

  headers-IsConsistent : (f : Frame) → Ends IsConsistent (headers incoming f)
  unfolding headers
  headers-IsConsistent f =
      Ends-if IsConsistent incoming.headers _ _
        (λ seen. record {
          short = consistent.short;
          headed = consistent.headed;
          open_before = λ e. cc;
        })
        (λ first. Ends-bind Any IsConsistent (content f) _ (content-Ends f) λ block taken.
          Ends-bind Any IsConsistent (status block) _ (status-Ends block)
            λ code known. take_status-IsConsistent (has_flag f.flags 0x1) code)

  data_frame-IsConsistent : (f : Frame) → Ends IsConsistent (data_frame incoming f)
  unfolding data_frame
  data_frame-IsConsistent f =
      Ends-if IsConsistent incoming.headers _ _
        (λ seen. Ends-bind Any IsConsistent (content f) _ (content-Ends f) λ bytes taken.
          let body = incoming.body ++ bytes in
          Ends-if IsConsistent (ltb max_body (length body)) _ _ (λ long. tt)
            (λ room. record {
              short = ltb→ge max_body (length body) room;
              headed = λ e. cc;
              open_before = λ e. cc;
            }))
        (λ none_yet. tt)

  -- From a state in which the body fits a message, and in which no body has come and the
  -- response has not ended while no headers have come, every frame that `handle` accepts leads
  -- to such a state.
  pub handle-IsConsistent : (f : Frame) → Ends IsNext (handle incoming f)
  unfolding handle
  handle-IsConsistent f =
      let ours = f.stream == 1 in
      Ends-if IsNext (f.kind == 0x4 && not (has_flag f.flags 0x1)) _ _
        (λ h. reply-Ends incoming _ consistent (frame-Ends 0x4 0x1 0 []))
        λ h.
          Ends-if IsNext (f.kind == 0x6 && not (has_flag f.flags 0x1)) _ _
            (λ h. reply-Ends incoming _ consistent (frame-Ends 0x6 0x1 0 f.payload))
            λ h.
              Ends-if IsNext (f.kind == 0x7) _ _ (λ h. tt)
                λ h.
                  Ends-if IsNext (f.kind == 0x3 && ours) _ _ (λ h. tt)
                    λ h.
                      Ends-if IsNext (f.kind == 0x1 && ours) _ _
                        (λ h. goes_on-Ends (headers incoming f) (headers-IsConsistent f))
                        λ h.
                          Ends-if IsNext (f.kind == 0x0 && ours) _ _
                            (λ h. goes_on-Ends (data_frame incoming f) (data_frame-IsConsistent f))
                            λ h. Ends-if IsNext (f.kind == 0x5) _ _ (λ h. tt) (λ h. consistent)
