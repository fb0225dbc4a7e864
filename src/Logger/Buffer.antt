-- ===== src/Logger/Buffer.antt =====
-- What the buffer of a log message holds.
use mathlib.Core.List.{append_assoc}
use mathlib.Core.Path.{subst}
use cftp_server.Base.{
  ℕ, zero, suc, ◌+◌, ◌-◌, ◌≤◌, ◌≡◌, refl, ap, sym, ◌∙◌, Bool, true, false, ◌||◌, some, [], ◌∷◌,
  ◌++◌, Bytes, bytes, arith, c_string, length, length-append, length-take, take, drop, take-take,
  take-drop, take_all, replicate, All, all, all-not, length-replicate, leb, ◌==◌, Bool-cases, inl,
  inr, if◌then◌else◌,
}
use cftp_server.Faults.{Run, ok, fault, out_of_range, ◌>>=◌, Returns}
use cftp_server.Logger.{
  half_buffer, trunc_log_len, message_size, trunc_log_warn, knrm, store, mark_truncated,
  store_texts, fill_message, log_prefix, print_log, LogType,
}
use cftp_server.Logger.Stores.{
  Begins, Begins-first, store-Begins, store-beyond, c_string-Begins, store-overflow,
}

-- A C string has no zero byte.
abbrev pub Clean : Bytes → Type 0
Clean t = All (λ c. (c == 0) ≡ false) t

Clean-append : (a b : Bytes) → Clean a → Clean b → Clean (a ++ b)
Clean-append [] b h k = k
Clean-append (c ∷ a) b h k = (h.0, Clean-append a b h.1 k)

Clean-take : (n : ℕ) (t : Bytes) → Clean t → Clean (take n t)
Clean-take zero t h = tt
Clean-take (suc n) [] h = tt
Clean-take (suc n) (c ∷ t) h = (h.0, Clean-take n t h.1)

knrm-Clean : Clean knrm
unfolding knrm bytes
knrm-Clean = (refl, (refl, (refl, (refl, (refl, (refl, tt))))))

length-knrm : length knrm ≡ 6
unfolding knrm bytes
length-knrm = refl

take-knrm : take 7 knrm ≡ knrm
unfolding knrm bytes
take-knrm = refl

length-warn : length trunc_log_warn ≡ 45
unfolding trunc_log_warn bytes
length-warn = refl

warn-Clean : Clean trunc_log_warn
unfolding trunc_log_warn bytes all
warn-Clean = all-not (λ c. c == 0) trunc_log_warn refl

-- What a prefix and a message come to.
unfoldable pub log_outcome : Bytes → Bytes → Run Bytes
log_outcome p m =
    if leb (length m) 254
    then ok (p ++ m ++ knrm)
    else if leb (length p) 212
    then ok (p ++ take 213 m ++ trunc_log_warn)
    else fault out_of_range

module _ (p m : Bytes) (clean : Clean p) (clean' : Clean m) (short : length p ≤ 255) where
  empty-Begins : Begins [] (replicate message_size 0)
  empty-Begins = record {
    size = length-replicate message_size 0;
    rest = replicate message_size 0;
    shape = refl;
  }

  -- The texts of the prefix and of the message, which are stored without a fault.
  two_texts : Returns (store_texts p m) (Begins ((p ++ take 255 m) ++ 0 ∷ []))
  unfolding store_texts
  two_texts =
      let (first, run, b) =
        store-Begins [] p (replicate message_size 0) empty-Begins (omega arith) in
      let (second, run', b') =
        store-Begins p (take 255 m) first (Begins-first p (0 ∷ []) first b)
          (omega (arith, length-take 255 m)) in
      (second, rw (store_texts, take_all 255 p short, run) run', b')

  filled :
      (second third last : Bytes) (res2 : ℕ)
      → store_texts p m ≡ ok second
      → mark_truncated (length p) (length m) second ≡ ok (res2, third)
      → store (length p + res2) knrm third ≡ ok last
      → fill_message p m ≡ ok last
  unfolding fill_message
  filled second third last res2 run run' run'' =
      rw (fill_message, run, run') (ap (λ t. store (length p + res2) t third) take-knrm ∙ run'')

  -- Both texts fit: they follow each other, and the colour is set back.
  fill_message-short :
      length m ≤ 254
      → length p ≤ 254
      → Returns (fill_message p m) (λ buffer. c_string buffer ≡ p ++ m ++ knrm)
  fill_message-short fits fits' =
      let (second, run, b) = two_texts in
      let whole : take 255 m ≡ m = take_all 255 m (omega arith) in
      let b' : Begins ((p ++ m) ++ 0 ∷ []) second =
        subst (λ u. Begins ((p ++ u) ++ 0 ∷ []) second) whole b in
      let (last, run', b'') =
        store-Begins (p ++ m) knrm second (Begins-first (p ++ m) (0 ∷ []) second b')
          (omega (arith, length-append p m, length-knrm)) in
      (
        last,
        filled second second last (length m) run (unfold mark_truncated in ground arith)
            (ap (λ n. store n knrm second) (sym (length-append p m)) ∙ run'),
        c_string-Begins (p ++ m ++ knrm) last
            (Clean-append (p ++ m) knrm (Clean-append p m clean clean') knrm-Clean) b'',
      )

  -- The message is cut: behind its first 213 bytes stands the mark.
  cut_mark :
      (second third : Bytes)
      → 255 ≤ length m
      → store (length p + half_buffer - trunc_log_len) trunc_log_warn second ≡ ok third
      → mark_truncated (length p) (length m) second ≡ ok (301, third)
  unfolding mark_truncated
  cut_mark second third long run =
      let test : leb half_buffer (length m + 1) ≡ true = ground arith in
      let either : (leb half_buffer (length p + 1) || leb half_buffer (length m + 1)) ≡ true =
        ground arith in
      rw (mark_truncated, either, run, length-warn) refl

  -- The message is cut: behind its first 213 bytes stands the mark.
  marked :
      255 ≤ length m
      → (second : Bytes) × (third : Bytes) × (store_texts p m ≡ ok second)
        × (mark_truncated (length p) (length m) second ≡ ok (301, third))
        × Begins (((p ++ take 213 m) ++ trunc_log_warn) ++ 0 ∷ []) third
  marked long =
      let (second, run, b) = two_texts in
      let parts : p ++ take 255 m ≡ (p ++ take 213 m) ++ drop 213 (take 255 m) =
        ap (λ u. p ++ u)
          (sym (take-drop 213 (take 255 m))
            ∙ ap (λ u. u ++ drop 213 (take 255 m)) (take-take 213 255 m (omega arith)))
        ∙ sym (append_assoc p (take 213 m) (drop 213 (take 255 m))) in
      let b' : Begins (p ++ take 213 m) second =
        Begins-first (p ++ take 213 m) (drop 213 (take 255 m)) second
          (subst (λ u. Begins u second) parts (Begins-first (p ++ take 255 m) (0 ∷ []) second b)) in
      let at_mark : length (p ++ take 213 m) ≡ length p + half_buffer - trunc_log_len =
        omega (arith, length-append p (take 213 m), length-take 213 m) in
      let (third, run', b'') =
        store-Begins (p ++ take 213 m) trunc_log_warn second b'
          (omega (arith, at_mark, length-warn)) in
      (
        second,
        third,
        run,
        cut_mark second third long (ap (λ n. store n trunc_log_warn second) (sym at_mark) ∙ run'),
        b'',
      )

  fill_message-long :
      255 ≤ length m
      → length p ≤ 212
      → Returns (fill_message p m) (λ buffer. c_string buffer ≡ p ++ take 213 m ++ trunc_log_warn)
  fill_message-long long fits =
      let (second, third, run, run', b) = marked long in
      let (last, run'', b') =
        store-beyond (((p ++ take 213 m) ++ trunc_log_warn) ++ 0 ∷ []) knrm third (length p + 301) b
          (omega (
            arith,
            length-append ((p ++ take 213 m) ++ trunc_log_warn) (0 ∷ []),
            length-append (p ++ take 213 m) trunc_log_warn,
            length-append p (take 213 m),
            length-take 213 m,
            length-warn,
          ))
          (omega (arith, length-knrm)) in
      (
        last,
        filled second third last 301 run run' run'',
        c_string-Begins ((p ++ take 213 m) ++ trunc_log_warn) last
            (Clean-append (p ++ take 213 m) trunc_log_warn
              (Clean-append p (take 213 m) clean (Clean-take 213 m clean')) warn-Clean)
            b',
      )

  fill_message-overflow : 255 ≤ length m → 213 ≤ length p → fill_message p m ≡ fault out_of_range
  unfolding fill_message
  fill_message-overflow long far =
      let (second, third, run, run', b) = marked long in
      let full : store (length p + 301) (take 7 knrm) third ≡ fault out_of_range =
        store-overflow (length p + 301) (take 7 knrm) third b.size
          (rw take-knrm (omega (arith, length-knrm))) in
      rw (fill_message, run, run', full) refl

  -- The three cases together.
  fill_message-outcome :
      length p ≤ 254
      → (fill_message p m >>= λ buffer. ok (some (c_string buffer)))
        ≡ (log_outcome p m >>= λ t. ok (some t))
  unfolding log_outcome
  fill_message-outcome fits = elim (Bool-cases (leb (length m) 254)) [
    | inl whole ↦
        let (buffer, run, text) = fill_message-short (ground arith) fits in
        rw (run, whole) (ap (λ t. ok (some t)) text)
    | inr cut ↦
        let long : 255 ≤ length m = ground arith in
        elim (Bool-cases (leb (length p) 212)) [
          | inl room ↦
              let (buffer, run, text) = fill_message-long long (ground arith) in
              rw (run, cut, room) (ap (λ t. ok (some t)) text)
          | inr full ↦ rw (fill_message-overflow long (ground arith), cut, full) refl
        ]
  ]

-- A message of an enabled level, with texts that are C strings and a prefix of at most 254 bytes,
-- is printed as the description says: a message of at most 254 bytes whole between the prefix and
-- the code that sets the colour back; a longer one cut at 213 bytes with the mark behind, and
-- without that code; and with a longer one and a prefix of more than 212 bytes the code writes past
-- the end of its buffer.
pub print_log-outcome :
    (enabled : LogType → Bool) (type : LogType) (time source_file : Bytes) (line : ℕ)
    (function_name message : Bytes)
    → enabled type ≡ true
    → Clean (log_prefix type time source_file line function_name)
    → Clean message
    → length (log_prefix type time source_file line function_name) ≤ 254
    → print_log enabled type time source_file line function_name message ≡ (
        log_outcome (log_prefix type time source_file line function_name) message >>= λ t.
        ok (some t))
unfolding print_log
print_log-outcome enabled type time source_file line function_name message on clean clean' fits =
    rw (print_log, on)
      (fill_message-outcome (log_prefix type time source_file line function_name) message clean
        clean' (omega arith) fits)
