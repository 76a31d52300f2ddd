-- ===== src/Config/Fields.antt =====
-- The fields of the configuration string that `open` of src/common/can4vscpobj.cpp reads.
use vscpl1drv_can4vscp.Prelude.{
  ℕ, zero, suc, ◌+◌, ◌/◌, ◌%◌, ◌<◌, ◌≤◌, ◌≡◌, ◌≢◌, refl, ap, ◌∙◌, arith, false, Bool-cases,
  Option-cases, inl, inr, Option, none, some, [], ◌∷◌, ◌++◌, ltb, ==-ne, length,
}
use vscpl1drv_can4vscp.Session.Codes.{baudrate_max}
use vscpl1drv_can4vscp.Config.{
  next_config_token, Level, trace, debug, info, warn, err, critical, off, parse_log_level, given,
  read_baud, read_port, udp_target, read_udp, read_config,
}
use vscpl1drv_can4vscp.Config.Text.{Bytes, codes, strrchr, strcasecmp, take, is_digit}
use vscpl1drv_can4vscp.Config.Tokens.{join, Lacks, next_config_token-field, next_config_token-last}
use vscpl1drv_can4vscp.Config.Numbers.{
  decimal_upto, decimal, AllDigits, decimal_upto-AllDigits, atoi-decimal,
}

strrchr-Lacks : (c : ℕ) (s : Bytes) → Lacks c s → strrchr c s ≡ none
unfolding strrchr
strrchr-Lacks c [] h = refl
strrchr-Lacks c (x ∷ s) h = rw (strrchr-Lacks c s h.1, ==-ne x c h.0) refl

strrchr-append : (c : ℕ) (s t : Bytes) → Lacks c t → strrchr c (s ++ (c ∷ t)) ≡ some (s, t)
unfolding strrchr
strrchr-append c [] t h = rw (strrchr-Lacks c t h) (ground arith)
strrchr-append c (x ∷ s) t h = rw (strrchr-append c s t h) refl

take-all : (n : ℕ) (s : Bytes) → length s ≤ n → take n s ≡ s
take-all zero [] h = refl
take-all zero (x ∷ s) h = absurd (omega arith)
take-all (suc n) [] h = refl
take-all (suc n) (x ∷ s) h = ap (λ t. x ∷ t) (take-all n s (omega arith))

length-take : (n : ℕ) (s : Bytes) → length (take n s) ≤ n
length-take zero s = omega arith
length-take (suc n) [] = omega arith
length-take (suc n) (x ∷ s) = omega (arith, length-take n s)

AllDigits-Lacks : (c : ℕ) (s : Bytes) → is_digit c ≡ false → AllDigits s → Lacks c s
AllDigits-Lacks c [] e h = tt
AllDigits-Lacks c (x ∷ s) e h = (λ q. ground (arith, h.0, e, q), AllDigits-Lacks c s e h.1)

Lacks-append : (c : ℕ) (s t : Bytes) → Lacks c s → Lacks c t → Lacks c (s ++ t)
Lacks-append c [] t hs ht = ht
Lacks-append c (x ∷ s) t hs ht = (hs.0, Lacks-append c s t hs.1 ht)

given_lem : (s : Bytes) → s ≢ [] → given (some s) ≡ some s
given_lem [] h = absurd (h refl)
given_lem (c ∷ s) h = refl

append-ne-nil : (s : Bytes) (c : ℕ) (t : Bytes) → s ++ (c ∷ t) ≢ []
append-ne-nil [] c t = λ e. cc
append-ne-nil (x ∷ s) c t = λ e. cc

decimal-ne-nil : (n : ℕ) → decimal n ≢ []
unfolding decimal_upto
decimal-ne-nil n = elim (Bool-cases (ltb n 10)) [
  | inl small ↦ rw small (λ e. cc)
  | inr large ↦ rw large (append-ne-nil (decimal_upto n (n / 10)) (b'0' + n % 10) [])
]

-- The four fields of a string are read one after the other.
read_config-join :
    (before : ℕ) (device rate udp level : Bytes)
    → Lacks b';' device
    → Lacks b';' rate
    → Lacks b';' udp
    → Lacks b';' level
    → read_config before (join (device ∷ rate ∷ udp ∷ level ∷ [])) ≡ record {
      device = given (some device);
      baud = read_baud before (given (some rate));
      udp_host = (read_udp (given (some udp))).0;
      udp_port = (read_udp (given (some udp))).1;
      level = parse_log_level (some level);
    }
unfolding read_config
read_config-join before device rate udp level hd hr hu hl =
    rw
      (
        next_config_token-field device (join (rate ∷ udp ∷ level ∷ [])) hd,
        next_config_token-field rate (join (udp ∷ level ∷ [])) hr,
        next_config_token-field udp level hu,
        next_config_token-last level hl,
      )
      refl

abbrev pub level_name : Level → Bytes
level_name trace = codes "trace"
level_name debug = codes "debug"
level_name info = codes "info"
level_name warn = codes "warn"
level_name err = codes "error"
level_name critical = codes "critical"
level_name off = codes "off"

parse_log_level-level_name : (l : Level) → parse_log_level (some (level_name l)) ≡ l
unfolding parse_log_level strcasecmp
parse_log_level-level_name trace = refl
parse_log_level-level_name debug = refl
parse_log_level-level_name info = refl
parse_log_level-level_name warn = refl
parse_log_level-level_name err = refl
parse_log_level-level_name critical = refl
parse_log_level-level_name off = refl

level_name-Lacks : (l : Level) → Lacks b';' (level_name l)
level_name-Lacks trace = ground arith
level_name-Lacks debug = ground arith
level_name-Lacks info = ground arith
level_name-Lacks warn = ground arith
level_name-Lacks err = ground arith
level_name-Lacks critical = ground arith
level_name-Lacks off = ground arith

abbrev pub print_udp : Bytes → ℕ → Bytes
print_udp host port = host ++ (b':' ∷ decimal port)

-- The string that the documentation of `open` asks for.
abbrev pub print_config : Bytes → ℕ → Bytes → ℕ → Level → Bytes
print_config device baud host port level =
    join (device ∷ decimal baud ∷ print_udp host port ∷ level_name level ∷ [])

read_port_lem : (n : ℕ) → 0 < n → n < 65536 → read_port (false, n) ≡ n
read_port_lem n h k = ground arith

read_baud-decimal :
    (before n : ℕ) → n < baudrate_max → read_baud before (given (some (decimal n))) ≡ n
read_baud-decimal before n h =
    rw (given_lem (decimal n) (decimal-ne-nil n), atoi-decimal n) (ground arith)

read_udp-print :
    (host : Bytes) (port : ℕ)
    → 0 < port
    → port < 65536
    → length (print_udp host port) ≤ 255
    → read_udp (given (some (print_udp host port))) ≡ (host, port)
read_udp-print host port positive small short =
    let colon : is_digit b':' ≡ false = refl in
    let split =
      strrchr-append b':' host (decimal port)
        (AllDigits-Lacks b':' (decimal port) colon (decimal_upto-AllDigits (suc port) port)) in
    let whole = take-all 255 (print_udp host port) short in
    let filled = given_lem (print_udp host port) (append-ne-nil host b':' (decimal port)) in
    ap read_udp filled
    ∙ ap (λ s. udp_target s (strrchr b':' s)) whole
    ∙ ap (udp_target (print_udp host port)) split
    ∙ ap (λ n. (host, read_port n)) (atoi-decimal port)
    ∙ ap (λ n. (host, n)) (read_port_lem port positive small)

-- A configuration string printed from a device, a baud code, a UDP host and port and a log level is
-- read by open as these. The device is not empty, neither it nor the host has a semicolon, the code
-- is one of the 13 codes, the port is from 1 to 65535, and the UDP field has at most 255 bytes.
pub read_config-print_config :
    (before : ℕ) (device host : Bytes) (baud port : ℕ) (level : Level)
    → device ≢ []
    → Lacks b';' device
    → Lacks b';' host
    → baud < baudrate_max
    → 0 < port
    → port < 65536
    → length (print_udp host port) ≤ 255
    → read_config before (print_config device baud host port level) ≡ record {
      device = some device;
      baud = baud;
      udp_host = host;
      udp_port = port;
      level = level;
    }
read_config-print_config before device host baud port level some_device hd hh hb positive small
      short =
    let no_semicolon : is_digit b';' ≡ false = refl in
    let digits =
      λ (n : ℕ). AllDigits-Lacks b';' (decimal n) no_semicolon (decimal_upto-AllDigits (suc n) n) in
    let udp : Lacks b';' (print_udp host port) =
      Lacks-append b';' host (b':' ∷ decimal port) hh ((λ e. omega arith), digits port) in
    read_config-join before device (decimal baud) (print_udp host port) (level_name level) hd
      (digits baud) udp (level_name-Lacks level)
    ∙ rw
        (
          given_lem device some_device,
          read_baud-decimal before baud hb,
          read_udp-print host port positive small short,
          parse_log_level-level_name level,
        )
        refl

length-strrchr :
    (c : ℕ) (s : Bytes) (parts : Bytes × Bytes)
    → strrchr c s ≡ some parts
    → length parts.0 ≤ length s
unfolding strrchr
length-strrchr c [] parts e = cc
length-strrchr c (x ∷ s) parts e = elim (Option-cases (strrchr c s)) [
  | inl missing ↦ ground (arith, missing)
  | inr (later, found) ↦ ground (arith, found, length-strrchr c s later found)
]

udp_target_bounds :
    (s : Bytes) (o : Option (Bytes × Bytes))
    → length s ≤ 255
    → ((parts : Bytes × Bytes) → o ≡ some parts → length parts.0 ≤ length s)
    → (length (udp_target s o).0 ≤ 255) × (0 < (udp_target s o).1) × ((udp_target s o).1 < 65536)
udp_target_bounds s none short h = (short, omega arith, omega arith)
udp_target_bounds s (some parts) short h = (omega (arith, h parts refl), ground arith, ground arith)

read_udp_bounds :
    (o : Option Bytes)
    → (length (read_udp o).0 ≤ 255) × (0 < (read_udp o).1) × ((read_udp o).1 < 65536)
read_udp_bounds none = (omega arith, omega arith, omega arith)
read_udp_bounds (some s) =
    udp_target_bounds (take 255 s) (strrchr b':' (take 255 s)) (length-take 255 s)
      (length-strrchr b':' (take 255 s))

read_baud_bounds :
    (before : ℕ) (o : Option Bytes) → before < baudrate_max → read_baud before o < baudrate_max
read_baud_bounds before none h = h
read_baud_bounds before (some s) h = ground arith

-- Whatever configuration string is given, what open reads of it is in range: the baud code is one
-- of the 13 codes, if it was one before, the UDP port is from 1 to 65535, and the UDP host has at
-- most 255 bytes.
pub read_config_bounds :
    (before : ℕ) (s : Bytes)
    → before < baudrate_max
    → let c = read_config before s in
      (c.baud < baudrate_max) × (length c.udp_host ≤ 255) × (0 < c.udp_port) × (c.udp_port < 65536)
unfolding read_config
read_config_bounds before s h =
    let rate = next_config_token (next_config_token (some s)).1 in
    let (short, positive, small) = read_udp_bounds (given (next_config_token rate.1).0) in
    (read_baud_bounds before (given rate.0) h, short, positive, small)
