-- ===== src/ClientProgram/Protocol.antt =====
-- What the server answers to P2P, and how the client reads it.
use rc_project.Base.{
  ◌^◌, ◌<◌, ◌≡◌, refl, ap, ◌∙◌, ℕ, List, [], ◌∷◌, ◌++◌, some, ok, pos, append_assoc, arith, true,
  take, length, Returns,
}
use rc_project.Memory.{Ptr, load-ok}
use rc_project.Text.{Bytes, codes, snprintf}
use rc_project.Text.Decimal.{print_int}
use rc_project.Text.Decimal.RoundTrip.{scan_int-print_int, skip_space-print_int}
use rc_project.Text.Scan.{skip_space}
use rc_project.Server.{Server, buffer_size, datagram, send_udp_message}
use rc_project.Server.Commands.{send_address}
use rc_project.Text.Scan.Words.{take-le, IsWord, scan_word-word, skip_space-word}
use rc_project.ClientProgram.{username_size, ip_size}
use rc_project.ClientProgram.Actions.{scan_address}

append_assoc6 {ℓ} :
    {A : Type ℓ} (a b c d e f : List A)
    → a ++ b ++ c ++ d ++ e ++ f ≡ a ++ (b ++ (c ++ (d ++ (e ++ f))))
append_assoc6 a b c d e f = simp append_assoc refl

-- The answer of the server to P2P is read back: `%s IP: %s Port: %d` of sscanf gives the name, the
-- address and the port that the server printed, for a name and an address that are words that fit
-- their arrays, and a port below 2 ^ 31.
pub scan_address-answer :
    (username ip : Bytes) (port : ℕ)
    → IsWord username_size username
    → IsWord ip_size ip
    → port < 2 ^ 31
    → scan_address
        (username ++ codes " IP: " ++ ip ++ codes " Port: " ++ print_int (pos port) ++ codes "\n")
      ≡ ok (some (username, ip, pos port))
unfolding scan_address skip_space
scan_address-answer username ip port hu hi hp =
    let number = print_int (pos port) ++ codes "\n" in
    let behind_ip = codes " Port: " ++ number in
    let behind_name = codes " IP: " ++ (ip ++ behind_ip) in
    ap scan_address (
      append_assoc6 username (codes " IP: ") ip (codes " Port: ") (print_int (pos port))
        (codes "\n"))
    ∙ rw
        (
          scan_word-word username_size username behind_name hu refl,
          skip_space-word ip_size ip behind_ip hi,
          scan_word-word ip_size ip behind_ip hi refl,
          skip_space-print_int port (codes "\n"),
          scan_int-print_int port (codes "\n") hp refl,
        )
        refl

module _ (p q : Ptr) (username : Bytes) (port : ℕ) (s : Server) where
  -- the text of the answer
  abbrev answer_text : Bytes
  answer_text =
      username
      ++ codes " IP: "
      ++ (s.sessions.cell q).ip
      ++ codes " Port: "
      ++ print_int (s.sessions.cell q).port
      ++ codes "\n"

  -- `send_address`, for a session `q` that is found, sends one packet to the session `p`, and
  -- the client reads its text back: `%s IP: %s Port: %d` of sscanf gives the name that was asked
  -- for, and the address and the number that the session `q` has. Both sessions are in use, the name
  -- and the address are words that fit their arrays, the number is below 2 ^ 31, and the text fits
  -- the buffer.
  pub send_address-scan_address :
      s.sessions.live p ≡ true
      → s.sessions.live q ≡ true
      → IsWord username_size username
      → IsWord ip_size (s.sessions.cell q).ip
      → (s.sessions.cell q).port ≡ pos port
      → port < 2 ^ 31
      → length answer_text < buffer_size
      → Returns
          (λ s'.
            (text : Bytes) × (s'.sent
              ≡ s.sent ++ (datagram (s.sessions.cell p).socket (s.sessions.cell p).sock text ∷ []))
            × (scan_address text ≡ ok (some (username, (s.sessions.cell q).ip, pos port))))
          (send_address p username (some q, s))
  unfolding send_address send_udp_message snprintf
  send_address-scan_address live_p live_q hu hi e hp fits =
      let whole = take-le 999 answer_text (omega (arith, fits)) in
      let read = scan_address-answer username (s.sessions.cell q).ip port hu hi hp in
      rw (load-ok q s.sessions live_q, load-ok p s.sessions live_p)
        (take 999 answer_text, refl, ap scan_address whole ∙ (rw e read))
