-- ===== src/Crawler/Logger/Entries.antt =====
-- What a logger keeps and writes (js/playwright-chaos/src/logger.ts).
use luna_mbt.Crawler.Logger.{
  write_stream, LogEntry, LoggerOptions, Logger, should_log, format_entry, write, write_all,
}
use luna_mbt.Js.Text.{js}
use luna_mbt.Prelude.{
  ◌≡◌, refl, sym, ap, ◌∙◌, inl, inr, true, false, some, List, [], ◌∷◌, ◌++◌, Text, if◌then◌else◌,
  filter, append-nil, append_assoc, Bool-cases,
}

-- The entries at the logger's level or above it, in their order.
abbrev pub kept : Logger → List LogEntry → List LogEntry
kept l es = filter (λ e. should_log l e.level) es

module _ (stringify : LogEntry → Text) where
  -- The text of the entries, a line each.
  unfoldable pub lines : LoggerOptions → List LogEntry → Text
  lines o [] = []
  lines o (e ∷ es) = format_entry stringify o e ++ (js "\n" ++ lines o es)

  -- The logger after writing an entry at its level or above.
  abbrev written_of : Logger → LogEntry → Logger
  written_of l e = record l {
    buffer = l.buffer ++ e ∷ [];
    stream = write_stream stringify l.stream (format_entry stringify l.options e);
    printed =
        if l.options.console
        then l.printed ++ (e.level, format_entry stringify l.options e) ∷ []
        else l.printed;
  }

  write_kept :
      (l : Logger) (e : LogEntry)
      → should_log l e.level ≡ true
      → write stringify l e ≡ written_of l e
  unfolding write
  write_kept l e p = rw p refl

  write_dropped :
      (l : Logger) (e : LogEntry) → should_log l e.level ≡ false → write stringify l e ≡ l
  unfolding write
  write_dropped l e p = rw p refl

  -- After any calls the buffer is the old one and the entries at the logger's level or above it, in
  -- the order of the calls.
  buffer-write_all :
      (l : Logger) (es : List LogEntry) → (write_all stringify l es).buffer ≡ l.buffer ++ kept l es
  unfolding write_all should_log filter
  buffer-write_all l [] = sym (append-nil l.buffer)
  buffer-write_all l (e ∷ es) = elim (Bool-cases (should_log l e.level)) [
    | inl p ↦
        ap (λ k. (write_all stringify k es).buffer) (write_kept l e p)
        ∙ (buffer-write_all (written_of l e) es
            ∙ (append_assoc l.buffer (e ∷ []) (kept l es) ∙ rw p refl))
    | inr p ↦
        ap (λ k. (write_all stringify k es).buffer) (write_dropped l e p)
        ∙ (buffer-write_all l es ∙ rw p refl)
  ]

  -- A logger with a file has written to it what it had and a line for each of those entries.
  stream-write_all :
      (l : Logger) (es : List LogEntry) (written : Text)
      → l.stream ≡ some written
      → (write_all stringify l es).stream ≡ some (written ++ lines l.options (kept l es))
  unfolding write_all should_log filter lines
  stream-write_all l [] written h = h ∙ ap some (sym (append-nil written))
  stream-write_all l (e ∷ es) written h = elim (Bool-cases (should_log l e.level)) [
    | inl p ↦
        let line = format_entry stringify l.options e ++ js "\n" in
        ap (λ k. (write_all stringify k es).stream) (write_kept l e p)
        ∙ (stream-write_all (written_of l e) es (written ++ line)
              (ap (λ o. write_stream stringify o (format_entry stringify l.options e)) h)
            ∙ (ap some (append_assoc written line (lines l.options (kept l es)))
                ∙ rw p (
                    ap (λ t. some (written ++ t))
                      (append_assoc (format_entry stringify l.options e) (js "\n")
                        (lines l.options (kept l es))))))
    | inr p ↦
        ap (λ k. (write_all stringify k es).stream) (write_dropped l e p)
        ∙ (stream-write_all l es written h ∙ rw p refl)
  ]
