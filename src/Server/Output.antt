-- ===== src/Server/Output.antt =====
-- `error` and `center_text` of code/server/src/utils/functions.c, for texts that the caller has
-- formatted, and the banners of the two servers.
use rc_project.Base.{
  ℕ, zero, suc, ◌+◌, ◌-◌, ◌/◌, ◌%◌, ◌^◌, ◌≤◌, ◌<◌, ◌≡◌, refl, ap, ◌∙◌, arith, [], ◌∷◌, ◌++◌, ltb,
  length, if◌then◌else◌, ℤ, pos, negsuc, true, false,
}
use rc_project.Text.Decimal.{print_int}
use rc_project.Server.Network.{Endpoint}
use rc_project.Text.{Bytes, codes, snprintf}
use rc_project.Text.Scan.Words.{take-le}

-- what `error` writes before it ends the program
unfoldable pub error_text : Bytes → Bytes
error_text text = codes "ERROR: " ++ (text ++ codes "\n")

-- a number of 32 bits as an `int`
abbrev pub int_of_bits : ℕ → ℤ
int_of_bits n = if ltb n (2 ^ 31) then pos n else negsuc (2 ^ 32 - n - 1)

-- `int padlen = (width - strlen(buffer)) / 2`: the difference is of type `size_t`, and wraps
unfoldable pub pad_length : (width len : ℕ) → ℤ
pad_length width len = int_of_bits ((width + 2 ^ 64 - len) % 2 ^ 64 / 2 % 2 ^ 32)

abbrev pub spaces : ℕ → Bytes
spaces zero = []
spaces (suc n) = b' ' ∷ spaces n

-- `%*s` with an empty string: a negative width is one to the left
abbrev pub padding : ℤ → Bytes
padding (pos n) = spaces n
padding (negsuc n) = spaces (suc n)

unfoldable pub center_text : (width : ℕ) → Bytes → Bytes
unfolding pad_length snprintf
center_text width text =
    let buffer = snprintf 1000 text in
    let pad = padding (pad_length width (length buffer)) in pad ++ (buffer ++ (pad ++ codes "\n"))

-- What a server prints when it starts: its title, and the address and the port of its socket.
unfoldable pub banner : (title : Bytes) → (s_addr port : ℕ) → Bytes
unfolding center_text
banner title s_addr port =
    let line = center_text 40 (codes "---------------------------------------") in
    let ip = center_text 40 (codes "IP: " ++ print_int (int_of_bits (s_addr % 2 ^ 32))) in
    let at_port = center_text 40 (codes "PORT: " ++ print_int (pos port)) in
    line ++ (center_text 40 title ++ (ip ++ (at_port ++ line)))

abbrev pub admin_banner : Endpoint → Bytes
admin_banner e = banner (codes "ADMIN SERVER OPEN") e.address.s_addr e.port

abbrev pub client_banner : Endpoint → Bytes
client_banner e = banner (codes "CLIENT SERVER OPEN") e.address.s_addr e.port

length-spaces : (n : ℕ) → length (spaces n) ≡ n
length-spaces zero = refl
length-spaces (suc n) = ap suc (length-spaces n)

pad_within :
    (width len : ℕ) → len ≤ width → width < 2 ^ 31 → pad_length width len ≡ pos ((width - len) / 2)
unfolding pad_length
pad_within width len h small =
    let e : (width + 2 ^ 64 - len) % 2 ^ 64 / 2 % 2 ^ 32 ≡ (width - len) / 2 = omega arith in
    let fits : ltb ((width - len) / 2) (2 ^ 31) ≡ true = ground arith in rw (e, fits) refl

pad_beyond :
    (width len : ℕ)
    → width < len
    → len < 1000
    → pad_length width len ≡ negsuc ((len - width + 1) / 2 - 1)
unfolding pad_length
pad_beyond width len h small =
    let c = (len - width + 1) / 2 in
    let e : (width + 2 ^ 64 - len) % 2 ^ 64 / 2 % 2 ^ 32 ≡ 2 ^ 32 - c = omega arith in
    let large : ltb (2 ^ 32 - c) (2 ^ 31) ≡ false = ground arith in
    let back : 2 ^ 32 - (2 ^ 32 - c) - 1 ≡ c - 1 = omega arith in rw (e, large) (ap negsuc back)

module _ (width : ℕ) (text : Bytes) (fits : length text < 1000) where
  whole : snprintf 1000 text ≡ text
  unfolding snprintf
  whole = take-le 999 text fits

  centered :
      (n : ℤ)
      → pad_length width (length text) ≡ n
      → center_text width text ≡ padding n ++ (text ++ (padding n ++ codes "\n"))
  unfolding center_text
  centered n e = rw (whole, e) refl

  -- A text of less than 1000 bytes that is not longer than the line stands in the middle of it, with
  -- as many spaces behind it as before it, and the end of the line.
  pub center_text-within :
      length text ≤ width
      → width < 2 ^ 31
      → center_text width text
        ≡ spaces ((width - length text) / 2)
          ++ (text ++ (spaces ((width - length text) / 2) ++ codes "\n"))
  center_text-within h small =
      centered (pos ((width - length text) / 2)) (pad_within width (length text) h small)

  -- A longer one is padded too: by half of what it is too long, rounded up, on either side.
  pub center_text-beyond :
      width < length text
      → center_text width text
        ≡ spaces ((length text - width + 1) / 2)
          ++ (text ++ (spaces ((length text - width + 1) / 2) ++ codes "\n"))
  center_text-beyond h =
      let c : suc ((length text - width + 1) / 2 - 1) ≡ (length text - width + 1) / 2 =
        omega arith in
      centered (negsuc ((length text - width + 1) / 2 - 1)) (pad_beyond width (length text) h fits)
      ∙ ap (λ n. spaces n ++ (text ++ (spaces n ++ codes "\n"))) c
