-- ===== src/Connection/Handlers.antt =====
-- The handlers of net_connection.h as the io_context runs them, one at a time: the oldest one of a kind.
use network_study.Prelude.{Bool, List, [], ◌∷◌, Option, some}
use network_study.Message.{Message}
use network_study.Connection.{
  Codec, Post, post_send, post_close, WriteOp, writing_header, writing_body, ReadOp, reading_header,
  reading_body, Connection, close, on_read_header, on_read_body, on_write_header, on_write_body,
  on_send,
}

module _ {ℓ} {T : Type ℓ} (codec : Codec T) where
  unfoldable pub run_posts : List (Post T) → Connection T → Option (Connection T)
  unfolding on_send close
  run_posts [] c = some c
  run_posts (post_send msg ∷ ps) c = on_send codec msg (record c { posts = ps })
  run_posts (post_close ∷ ps) c = some (close (record c { posts = ps }))

  unfoldable pub run_writes : Bool → List WriteOp → Connection T → Option (Connection T)
  unfolding on_write_header on_write_body
  run_writes error [] c = some c
  run_writes error (writing_header bytes ∷ ws) c =
      on_write_header codec error (record c { writes = ws })
  run_writes error (writing_body bytes ∷ ws) c =
      on_write_body codec error (record c { writes = ws })

  unfoldable pub run_reads : Bool → Message T → List ReadOp → Connection T → Option (Connection T)
  unfolding on_read_header on_read_body
  run_reads error got [] c = some c
  run_reads error got (reading_header ∷ rs) c =
      let filled : Message T = record { header = got.header; body = c.temp_msg.body } in
      some (on_read_header error (record c { reads = rs; temp_msg = filled }))
  run_reads error got (reading_body size ∷ rs) c =
      let filled : Message T = record { header = c.temp_msg.header; body = got.body } in
      some (on_read_body error (record c { reads = rs; temp_msg = filled }))

  -- A handler that `Send` or `Disconnect` has posted.
  unfoldable pub run_post : Connection T → Option (Connection T)
  unfolding run_posts
  run_post c = run_posts c.posts c

  -- A write completes, or fails.
  unfoldable pub run_write : Bool → Connection T → Option (Connection T)
  unfolding run_writes
  run_write error c = run_writes error c.writes c

  -- A read completes, or fails, with what then is in the header or the body.
  unfoldable pub run_read : Bool → Message T → Connection T → Option (Connection T)
  unfolding run_reads
  run_read error got c = run_reads error got c.reads c
