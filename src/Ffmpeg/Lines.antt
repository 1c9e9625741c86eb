-- ===== src/Ffmpeg/Lines.antt =====
-- Lines as ffmpeg prints them, and how they are read.
use radio_chatter.Common.{
  ℕ, ◌≡◌, ◌≢◌, refl, ◌∙◌, Bool, true, List, [], ◌∷◌, ◌++◌, append-nil, All-append, some, Bytes,
  codes, equal_self, length, take, ◌-◌, if◌then◌else◌,
}
use mathlib.Core.Option
use radio_chatter.Regex.{
  Regex, capture, plus, star, seq, lit, text, Captures, matches, match_whole, at_end, is_space,
  not_space, not_newline,
}
use radio_chatter.Regex.Laws.{
  AllIn-all_of, Stops, AllIn, match_star_run, matches-plus_run, matches-text, take-diff,
}
use radio_chatter.Ffmpeg.Patterns.{message_pattern, opening_file_pattern, is_address, not_quote}
use radio_chatter.Ffmpeg.{
  Time, download_started, start_writing, Floats, process_segment, process, process_line,
}

-- `[component @ address] payload`
abbrev pub message_line : Bytes → Bytes → Bytes → Bytes
message_line component address payload =
    b'[' ∷ (component ++ (codes " @ " ++ (address ++ (codes "] " ++ payload))))

-- A component, an address and a payload that ffmpeg prints on one line.
pub record IsMessage (component address payload : Bytes) : Type 0 where
  pub component_ne : component ≢ []
  pub component_in : AllIn not_space component
  pub address_ne : address ≢ []
  pub address_in : AllIn is_address address
  pub payload_in : AllIn not_newline payload
  pub payload_head : Stops is_space payload

matches-plus :
    (p : ℕ → Bool) (run rest : Bytes) (k : Bytes → Captures) {r : List Bytes}
    → run ≢ []
    → AllIn p run
    → Stops p rest
    → k rest ≡ some r
    → matches (plus p) (run ++ rest) k ≡ some r
matches-plus p [] rest k ne h e m = absurd (ne refl)
matches-plus p (c ∷ run) rest k ne h e m = matches-plus_run p c run rest k h e m

-- A captured repetition, behind which the rest of the pattern matches.
matches-capture_plus :
    (p : ℕ → Bool) (run rest : Bytes) (k : Bytes → Captures) {r : List Bytes}
    → run ≢ []
    → AllIn p run
    → Stops p rest
    → k rest ≡ some r
    → matches (capture (plus p)) (run ++ rest) k ≡ some (run ∷ r)
unfolding matches
matches-capture_plus p run rest k ne h e m =
    matches-plus p run rest _ ne h e (rw (take-diff run rest) (rw m))

matches-capture_end :
    (p : ℕ → Bool) (run : Bytes)
    → AllIn p run
    → matches (capture (star p)) run at_end ≡ some (run ∷ [])
unfolding matches
matches-capture_end p run h = rw append-nil at (
    match_star_run p run []
      (λ t. Option.map (◌∷◌ (take (length (run ++ []) - length t) (run ++ []))) (at_end t))
      {r = run ∷ []} h tt (rw (take-diff run [])))

-- Behind `[component`.
abbrev after_component : Regex
after_component =
    seq (text (codes " @ "))
      (seq (plus is_address) (seq (lit b']') (seq (star is_space) (capture (star not_newline)))))

abbrev after_address : Regex
after_address = seq (lit b']') (seq (star is_space) (capture (star not_newline)))

match-message_line :
    (component address payload : Bytes)
    → IsMessage component address payload
    → match_whole message_pattern (message_line component address payload)
      ≡ some (component ∷ payload ∷ [])
unfolding match_whole matches
match-message_line component address payload h =
    matches-capture_plus not_space component (codes " @ " ++ (address ++ (codes "] " ++ payload)))
      (λ t. matches after_component t at_end) h.component_ne h.component_in refl
      (matches-text (codes " @ ") (address ++ (codes "] " ++ payload))
          (λ t. matches (seq (plus is_address) after_address) t at_end)
        ∙ matches-plus is_address address (codes "] " ++ payload)
            (λ t. matches after_address t at_end) h.address_ne h.address_in refl
            (match_star_run is_space (32 ∷ []) payload
              (λ t. matches (capture (star not_newline)) t at_end) (refl, tt) h.payload_head
              (matches-capture_end not_newline payload h.payload_in)))

-- `Opening 'path' for writing`
abbrev pub opening_payload : Bytes → Bytes
opening_payload path = codes "Opening '" ++ (path ++ codes "' for writing")

match-opening_payload :
    (path : Bytes)
    → path ≢ []
    → AllIn not_quote path
    → match_whole opening_file_pattern (opening_payload path) ≡ some (path ∷ [])
unfolding match_whole matches
match-opening_payload path ne h =
    matches-text (codes "Opening '") (path ++ codes "' for writing")
      (λ t. matches (seq (capture (plus not_quote)) (text (codes "' for writing"))) t at_end)
    ∙ matches-capture_plus not_quote path (codes "' for writing")
        (λ t. matches (text (codes "' for writing")) t at_end) ne h refl
        (matches-text (codes "' for writing") [] at_end)

opening-IsMessage :
    (address path : Bytes)
    → address ≢ []
    → AllIn is_address address
    → AllIn not_newline path
    → IsMessage (codes "segment") address (opening_payload path)
opening-IsMessage address path ne h n = record {
  component_ne = λ e. cc;
  component_in = AllIn-all_of not_space (codes "segment") refl;
  address_ne = ne;
  address_in = h;
  payload_in =
      All-append (λ c. not_newline c ≡ true) (codes "Opening '") _
        (AllIn-all_of not_newline (codes "Opening '") refl)
        (All-append (λ c. not_newline c ≡ true) path _ n
          (AllIn-all_of not_newline (codes "' for writing") refl));
  payload_head = refl;
}

module _ (F : Floats) where
  -- A line that reports a new chunk file is read as one, whatever the file is called: if the name is
  -- not empty and holds no quote and no line break, the callbacks are `StartWriting` with exactly
  -- that name, and `DownloadStarted` before it if this is the first chunk.
  pub process_line-opening :
      (now : Time) (running : Bool) (address path : Bytes)
      → address ≢ []
      → AllIn is_address address
      → path ≢ []
      → AllIn not_quote path
      → AllIn not_newline path
      → process_line F now running (message_line (codes "segment") address (opening_payload path))
        ≡ (true, (if running then [] else download_started ∷ []) ++ (start_writing path ∷ []))
  unfolding process_line process process_segment
  process_line-opening now running address path an ai pn pq pl =
      rw
        (
          match-message_line (codes "segment") address (opening_payload path)
              (opening-IsMessage address path an ai pl),
          process_line,
        )
        (rw (equal_self (codes "segment")) (rw (match-opening_payload path pn pq, process_segment)))
