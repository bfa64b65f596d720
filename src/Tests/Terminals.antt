-- ===== src/Tests/Terminals.antt =====
-- Runs of ptyd and its theorems at concrete terminals.
use eos_base.Base.{ℕ, suc, ◌-◌, ◌^◌, ◌≡◌, refl, true, none, some, [], ◌∷◌, ◌++◌, arith, take, drop}
use eos_base.Base.Text.{Str}
use eos_base.Base.Syscall.{Syscall}
use eos_base.Base.Result.{ok}
use eos_base.Ptyd.Termios.{RedoxTermios}
use eos_base.Ptyd.Pty.{Pty, update}
use eos_base.Ptyd.Pty.Input.{
  input, input_byte, translate, sigint, canonical, newline, end_of_file, end_of_line, erase_char,
  erase, swallow, signals, signal, flow, store,
}
use eos_base.Ptyd.Pty.Dispatch.{dispatch, input_byte-dispatch}
use eos_base.Ptyd.Pty.Stream.{stream, update-stream, IsRaw, nonzero, input-raw}
use eos_base.Ptyd.Resource.{Term, Aux, pgrp, new_term, copy}
use eos_base.Ptyd.Resource.Ops.{read, write, read_sub, read_mosi, read_control, returns}
use eos_base.Ptyd.Resource.Streams.{read_sub-stream}
use eos_base.Ptyd.Resource.Packets.{payload, behind, read_control-payload, read_control-empty_buf}
use eos_base.Ptyd.Resource.Records.{read-write_pgrp}

abbrev pub sys : Syscall
sys = record {
  o_creat = 0x2000000;
  o_excl = 0x8000000;
  o_nonblock = 0x40000;
  o_accmode = 0x30000;
  f_getfl = 3;
  f_setfl = 4;
  event_read = 1;
  event_write = 2;
}

-- Settings whose control characters are their own indices; `lflag` are the local flags.
abbrev pub tio : ℕ → RedoxTermios
tio lflag = record {
  default_termios = 0 ∷ [];
  default_winsize = 0 ∷ [];
  c_iflag = λ _. 0;
  c_oflag = λ _. 0;
  c_lflag = λ _. lflag;
  c_cc = λ _ i. i;
  inlcr = 1;
  igncr = 2;
  icrnl = 4;
  ixon = 8;
  opost = 1;
  onlcr = 4;
  echo = 1;
  echoe = 2;
  echonl = 4;
  icanon = 8;
  isig = 16;
  iexten = 32;
  veof = 4;
  veol = 5;
  veol2 = 6;
  verase = 127;
  vwerase = 23;
  vkill = 21;
  vreprint = 18;
  vintr = 3;
  vquit = 28;
  vsusp = 26;
  vstart = 17;
  vstop = 19;
  vlnext = 22;
  vdiscard = 15;
  vmin = 1;
  vtime = 2;
}

abbrev pub pty : Pty
pty = record {
  id = 7;
  pgrp = 12;
  locked = true;
  termios = 0 ∷ [];
  winsize = 0 ∷ [];
  cooked = 104 ∷ 105 ∷ [];
  miso = (0 ∷ 65 ∷ 66 ∷ []) ∷ [];
  mosi = (97 ∷ 98 ∷ 10 ∷ []) ∷ [];
  timeout_count = 0;
  timeout_character = none;
}

abbrev term : Term
term = new_term 7 0

abbrev aux : Aux
aux = record { pty = 7; flags = 0 }

-- An interrupt character signals the process group 12 in the canonical mode with signals.
interrupt : (input_byte (tio 24) pty [] 3).kills ≡ (2 ^ 64 - 12, sigint) ∷ []
unfolding input_byte translate canonical newline end_of_file end_of_line erase_char swallow signals
    signal flow store
interrupt = refl

-- Backspace takes the last byte off the line.
backspace : (input_byte (tio 24) pty [] 127).pty.cooked ≡ 104 ∷ []
unfolding input_byte translate canonical newline end_of_file end_of_line erase_char erase swallow
    signals signal flow store
backspace = refl

input_byte-dispatch_example :
    let l = input_byte (tio 24) pty [] 3 in
    (l.pty, l.kills) ≡ dispatch (tio 24) pty [] (translate (tio 24) pty 3)
input_byte-dispatch_example = input_byte-dispatch (tio 24) pty [] 3

pty-IsRaw : IsRaw (tio 0) pty
pty-IsRaw = record {
  no_icanon = refl;
  no_isig = refl;
  no_ixon = refl;
  no_iexten = refl;
  no_echo = refl;
  no_inlcr = refl;
  no_igncr = refl;
  no_icrnl = refl;
}

input-raw_example :
    (stream (input (tio 0) pty (1 ∷ 0 ∷ 2 ∷ [])).0 ≡ stream pty ++ nonzero (tio 0) (1 ∷ 0 ∷ 2 ∷ []))
    × ((input (tio 0) pty (1 ∷ 0 ∷ 2 ∷ [])).1 ≡ [])
input-raw_example = input-raw (tio 0) pty (1 ∷ 0 ∷ 2 ∷ []) pty-IsRaw

update-stream_example : stream (update (tio 0) pty) ≡ stream pty
update-stream_example = update-stream (tio 0) pty

-- A read of two bytes out of a packet of three.
read_two : (read_sub sys (tio 8) term (some pty) (0 ∷ 0 ∷ [])).result ≡ ok 2
unfolding read_sub read_mosi update copy
read_two = refl

read_sub-stream_example :
    (p' : Pty) × ((read_sub sys (tio 8) term (some pty) (0 ∷ 0 ∷ [])).pty ≡ some p')
    × (take 2 (read_sub sys (tio 8) term (some pty) (0 ∷ 0 ∷ [])).buf ++ stream p' ≡ stream pty)
read_sub-stream_example = read_sub-stream sys (tio 8) term pty (0 ∷ 0 ∷ []) 2 read_two

read_control-payload_example :
    let d = read_control sys (tio 8) term pty 1 (0 ∷ 0 ∷ []) in
    (i : ℕ) × (p' : Pty) × (rest : Str) × (d.result ≡ ok (suc i))
    × (d.pty ≡ some p')
    × (d.buf ≡ 0 ∷ rest)
    × (p'.miso ≡ behind 0 (drop i (65 ∷ 66 ∷ [])) [])
    × (take i rest ++ payload p'.miso ≡ payload pty.miso)
read_control-payload_example =
    read_control-payload sys (tio 8) term pty 1 0 0 (0 ∷ []) (65 ∷ 66 ∷ []) [] refl

read_control-empty_buf_example :
    let d = read_control sys (tio 8) term pty 1 [] in
    (p' : Pty) × (d.result ≡ ok 0) × (d.pty ≡ some p') × (payload p'.miso ≡ 0 ∷ payload pty.miso)
read_control-empty_buf_example =
    read_control-empty_buf sys (tio 8) term pty 1 0 (65 ∷ 66 ∷ []) [] refl

read-write_pgrp_example :
    let d = write sys (tio 8) (pgrp aux) (some pty) (1 ∷ 2 ∷ 0 ∷ 0 ∷ []) in
    (p' : Pty) × (d.result ≡ ok 4)
    × (d.pty ≡ some p')
    × (p' ≡ record pty { pgrp = p'.pgrp })
    × (read sys (tio 8) (pgrp aux) (some p') 0 (9 ∷ 9 ∷ 9 ∷ 9 ∷ 9 ∷ [])
        ≡ returns 4 (1 ∷ 2 ∷ 0 ∷ 0 ∷ 9 ∷ []) p')
read-write_pgrp_example =
    read-write_pgrp sys (tio 8) aux pty 0 1 2 0 0 [] (9 ∷ []) 9 9 9 9 (omega arith) (omega arith)
      (omega arith) (omega arith)
