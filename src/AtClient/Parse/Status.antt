-- ===== src/AtClient/Parse/Status.antt =====
-- The lines that end a command.
use ucxclient.Prelude.{
  ℕ, ◌^◌, ◌<◌, ◌≡◌, refl, ap, sym, ◌∙◌, true, false, [], ◌∷◌, ◌++◌, append-nil, arith, Bytes, codes,
  min, if_true, if_false,
}
use ucxclient.Prelude.Int.{pos, negsuc, ◌-ℤ◌}
use ucxclient.Prelude.Decimal.{first, isdigit, long_max, show_ℕ, scan_digits-show_ℕ, first-show_ℕ}
use ucxclient.AtClient.State.{Client, ParserCode, nop, got_status, Exec, ran}
use ucxclient.AtClient.Parse.{
  parse_line, parse_urc, parse_response, parse_error, is_expected, empty_line,
}

-- A response that reports a status is what parseLine reports.
status_line :
    (c c' : Client) (line : Bytes)
    → c.executing_cmd ≡ true
    → empty_line line ≡ false
    → parse_response c line ≡ (got_status, c')
    → parse_line c line ≡ ran (got_status, c')
unfolding parse_line
status_line c c' line x some_line e =
    let P : Exec (ParserCode × Client) → Type 0 = λ m. m ≡ ran (got_status, c') in
    if_false P (ran (nop, c)) some_line (
      if_true P _ x (
        ap
          (λ (r : ParserCode × Client). elim (r.0) [
            | nop ↦ parse_urc r.1 line
            | other ↦ ran (other, r.1)
          ])
          e))

error_code :
    (c : Client) (n : ℕ)
    → n < 2 ^ 31
    → parse_error c (b':' ∷ show_ℕ n) ≡ (got_status, record c { status = pos 0 -ℤ pos n })
unfolding parse_error
error_code c n small =
    let digits : isdigit (first (show_ℕ n)) ≡ true =
      ap (λ s. isdigit (first s)) (sym (append-nil (show_ℕ n))) ∙ first-show_ℕ n [] in
    let kept : min n long_max ≡ n = omega (arith, small) in
    rw (scan_digits-show_ℕ n, digits, kept) refl

-- While a command is under way, and unless the command's own response starts the same way, `parseLine`
-- takes the line OK for the status 0, the line ERROR for the status -1, and ERROR: with the decimal
-- digits of a number below 2^31 for the negative of that number; it changes nothing but the status.
pub parse_line-status :
    (c : Client) (n : ℕ)
    → c.executing_cmd ≡ true
    → n < 2 ^ 31
    → is_expected c.expected_rsp (codes "OK") ≡ false
    → is_expected c.expected_rsp (codes "ERROR") ≡ false
    → is_expected c.expected_rsp (codes "ERROR:" ++ show_ℕ n) ≡ false
    → (parse_line c (codes "OK") ≡ ran (got_status, record c { status = pos 0 }))
      × (parse_line c (codes "ERROR") ≡ ran (got_status, record c { status = negsuc 0 }))
      × (parse_line c (codes "ERROR:" ++ show_ℕ n)
          ≡ ran (got_status, record c { status = pos 0 -ℤ pos n }))
unfolding parse_response parse_error empty_line
parse_line-status c n x small e0 e1 e2 = (
  status_line c _ (codes "OK") x refl
      (if_false (λ r. r ≡ (got_status, record c { status = pos 0 })) _ e0 refl),
  status_line c _ (codes "ERROR") x refl
      (if_false (λ r. r ≡ (got_status, record c { status = negsuc 0 })) _ e1 refl),
  status_line c _ (codes "ERROR:" ++ show_ℕ n) x refl (
      if_false (λ r. r ≡ (got_status, record c { status = pos 0 -ℤ pos n })) _ e2
        (error_code c n small)),
)
