-- ===== src/Serve/Unsent.antt =====
-- How mk_handler_write of src/mk_request.c learns from mk_http_send_file that bytes of a file are left.
use monkey.Prelude.{
  ℕ, ◌+◌, ◌-◌, ◌^◌, ◌<◌, ◌≤◌, ◌≡◌, ◌⊎◌, inl, inr, refl, ap, ◌∙◌, true, false, some, List, ◌∷◌,
  arith, ℤ, pos, negsuc, ltb_ℤ,
}
use monkey.Types.{SessionRequest, ClientSession}
use monkey.Http.Send.{send_file, send_file_sent, send_file_small, send_file_large}
use monkey.Serve.Plugins.{Result, Server, run_stage_40}
use monkey.Serve.Errors.{send_chunk}
use monkey.Serve.Write.{write_node, stops, write_loop}

module _ (srv : Server) (cs : ClientSession) (st : ℤ) (sr : SessionRequest)
    (rest : List SessionRequest) (k o n : ℕ) (open_file : sr.handled_by ≡ false)
    (left : sr.bytes_to_send ≡ pos k) (at : sr.bytes_offset ≡ pos o)
    (sends : srv.sys.sendfile sr.fd_file sr.bytes_offset sr.bytes_to_send ≡ pos n) (lt : n < k)
    (bound : k + 2 < 2 ^ 32) where
  some_left : 0 < k
  some_left = omega (arith, lt)

  le : n ≤ k
  le = omega (arith, lt)

  abbrev pub chunk : Result
  chunk = write_node srv cs st sr

  chunk_is : chunk ≡ send_chunk srv.sys sr
  unfolding write_node
  chunk_is = ground (arith, left, some_left, open_file)

  chunk_value : chunk.value ≡ some (send_file sr (pos n)).0
  unfolding send_chunk
  chunk_value = ap (λ r. r.value) chunk_is ∙ ap (λ m. some (send_file sr m).0) sends

  chunk_left : chunk.request.bytes_to_send ≡ pos (k - n)
  unfolding send_chunk
  chunk_left =
      ap (λ r. r.request.bytes_to_send) chunk_is
      ∙ ap (λ m. (send_file sr m).1.bytes_to_send) sends
      ∙ (send_file_sent sr k o n left at le).0

  waits : k - n < 2 ^ 31 → (write_loop srv cs st (sr ∷ rest)).value ≡ some (pos (k - n))
  unfolding write_loop
  waits g =
      let v = chunk_value ∙ ap some (send_file_small sr k o n left at le g) in
      let positive : ltb_ℤ (pos 0) (pos (k - n)) ≡ true = ground (arith, lt) in
      rw (v, positive, write_loop) refl

  passes :
      2 ^ 31 ≤ k - n
      → (write_loop srv cs st (sr ∷ rest)).value
        ≡ (write_loop srv cs (negsuc (2 ^ 32 - 1 - (k - n))) rest).value
  unfolding write_loop stops
  passes h =
      let g : k - n + 2 < 2 ^ 32 = omega (arith, bound, lt) in
      let v = chunk_value ∙ ap some (send_file_large sr k o n left at le h g) in
      let t = run_stage_40 srv.stages.stage_40 cs chunk.request in
      let negative : ltb_ℤ (pos 0) (negsuc (2 ^ 32 - 1 - (k - n))) ≡ false = ground arith in
      let goes : stops (negsuc (2 ^ 32 - 1 - (k - n))) t.request ≡ false = ground arith in
      rw (v, write_loop) (rw (negative, goes) refl)

  -- When the transport sends `n` bytes of a file of which `k` are left, more than `n` and fewer than 2^32 - 2, then
  -- `k - n` are left in the request. If these are fewer than 2^31, mk_handler_write returns their number and
  -- waits for the next event. If they are 2^31 or more, the number is negative as an int: the request passes
  -- for one that has ended, and the loop goes on with the requests behind it.
  pub write_loop-left :
      (chunk.request.bytes_to_send ≡ pos (k - n))
      × (((k - n < 2 ^ 31) × ((write_loop srv cs st (sr ∷ rest)).value ≡ some (pos (k - n))))
          ⊎ ((2 ^ 31 ≤ k - n)
              × ((write_loop srv cs st (sr ∷ rest)).value
                  ≡ (write_loop srv cs (negsuc (2 ^ 32 - 1 - (k - n))) rest).value)))
  write_loop-left = (chunk_left, by_size)
    where
      range : (k - n < 2 ^ 31) ⊎ (2 ^ 31 ≤ k - n)
      range = ground arith

      by_size :
          ((k - n < 2 ^ 31) × ((write_loop srv cs st (sr ∷ rest)).value ≡ some (pos (k - n))))
          ⊎ ((2 ^ 31 ≤ k - n)
              × ((write_loop srv cs st (sr ∷ rest)).value
                  ≡ (write_loop srv cs (negsuc (2 ^ 32 - 1 - (k - n))) rest).value))
      by_size = elim range [ inl g ↦ inl (g, waits g) | inr h ↦ inr (h, passes h) ]
