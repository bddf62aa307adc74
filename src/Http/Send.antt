-- ===== src/Http/Send.antt =====
-- mk_http_send_file of src/mk_http.c. What the transport plugin's send_file returns is an argument:
-- the count of bytes that it sent, 0 at the end of the file, or a negative number. It moves the offset
-- by the bytes that it sent.
use monkey.Prelude.{
  ◌^◌, ℕ, ◌+◌, ◌-◌, ◌<◌, ◌≤◌, ◌≡◌, ◌∙◌, Bool, ◌&&◌, arith, if◌then◌else◌, ℤ, pos, negsuc, ltb_ℤ,
  eq_ℤ, ◌+ℤ◌, ◌-ℤ◌,
}
use monkey.Libc.Numbers.{to_int}
use monkey.Types.{SessionRequest}

-- EXIT_ABORT
abbrev pub exit_abort : ℤ
exit_abort = negsuc 1

-- The returned value is a long that is cut to an int.
unfoldable pub send_file : SessionRequest → ℤ → ℤ × SessionRequest
send_file sr nbytes =
    let sent =
      if ltb_ℤ (pos 0) nbytes
      then record sr {
        bytes_offset = sr.bytes_offset +ℤ nbytes;
        bytes_to_send = sr.bytes_to_send -ℤ nbytes;
      }
      else sr in
    let looped = record sent { loop = sent.loop + 1 } in
    if ltb_ℤ nbytes (pos 0) then (exit_abort, looped) else (to_int sent.bytes_to_send, looped)

-- The cork on the socket is taken off.
unfoldable pub uncorks : SessionRequest → ℤ → Bool
uncorks sr nbytes = ltb_ℤ (pos 0) nbytes && eq_ℤ (sr.bytes_to_send -ℤ nbytes) (pos 0)

to_int_small : (n : ℕ) → n < 2 ^ 31 → to_int (pos n) ≡ pos n
unfolding to_int
to_int_small n h = ground arith

-- The values -1 and -2 are left out, which are EXIT_ERROR and EXIT_ABORT.
to_int_large : (n : ℕ) → 2 ^ 31 ≤ n → n + 2 < 2 ^ 32 → to_int (pos n) ≡ negsuc (2 ^ 32 - 1 - n)
unfolding to_int
to_int_large n h k = ground arith

-- A call that sends `n` of the `k` bytes that are left.
pub send_file_sent :
    (sr : SessionRequest) (k o n : ℕ)
    → sr.bytes_to_send ≡ pos k
    → sr.bytes_offset ≡ pos o
    → n ≤ k
    → ((send_file sr (pos n)).1.bytes_to_send ≡ pos (k - n))
      × ((send_file sr (pos n)).1.bytes_offset ≡ pos (o + n))
      × ((send_file sr (pos n)).1.close_now ≡ sr.close_now)
      × ((send_file sr (pos n)).0 ≡ to_int (pos (k - n)))
unfolding send_file ◌+ℤ◌ ◌-ℤ◌
send_file_sent sr k o n hk ho le = ground arith

pub send_file_small :
    (sr : SessionRequest) (k o n : ℕ)
    → sr.bytes_to_send ≡ pos k
    → sr.bytes_offset ≡ pos o
    → n ≤ k
    → k - n < 2 ^ 31
    → (send_file sr (pos n)).0 ≡ pos (k - n)
send_file_small sr k o n hk ho le h = (send_file_sent sr k o n hk ho le).3 ∙ to_int_small (k - n) h

pub send_file_large :
    (sr : SessionRequest) (k o n : ℕ)
    → sr.bytes_to_send ≡ pos k
    → sr.bytes_offset ≡ pos o
    → n ≤ k
    → 2 ^ 31 ≤ k - n
    → k - n + 2 < 2 ^ 32
    → (send_file sr (pos n)).0 ≡ negsuc (2 ^ 32 - 1 - (k - n))
send_file_large sr k o n hk ho le h g =
    (send_file_sent sr k o n hk ho le).3 ∙ to_int_large (k - n) h g
