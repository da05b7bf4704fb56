-- ===== src/Protocol/Message/Laws.antt =====
-- Messages of psyexp_net/protocol/message.py as dictionaries.
use psyexp_net.Prelude.{String, ◌≡◌}
use psyexp_net.Errors.{ok}
use psyexp_net.Value.Typed.{
  as_opt_str-opt_str, as_opt_float-opt_float, as_opt_ℤ-opt_int, bytes_items-bytes,
}
use psyexp_net.Protocol.Message.{
  MessageHeader, Message, header_to_dict, header_from_dict, to_dict, from_dict,
}

module _ {F : Type 0} where
  -- A header reads back from its dictionary.
  pub header_from_dict-to_dict :
      (fresh : String) (h : MessageHeader F) → header_from_dict fresh (header_to_dict h) ≡ ok h
  unfolding header_to_dict header_from_dict
  header_from_dict-to_dict fresh h = rw (
    as_opt_str-opt_str F h.reply_to,
    as_opt_str-opt_str F h.session_id,
    as_opt_str-opt_str F h.run_id,
    as_opt_str-opt_str F h.block_id,
    as_opt_str-opt_str F h.trial_id,
    as_opt_float-opt_float F h.server_ts,
    as_opt_float-opt_float F h.client_ts,
    as_opt_ℤ-opt_int F h.deadline_ms,
  )

  -- A message reads back from its dictionary, header, payload and attachments.
  pub from_dict-to_dict : (fresh : String) (m : Message F) → from_dict fresh (to_dict m) ≡ ok m
  unfolding to_dict from_dict
  from_dict-to_dict fresh m =
      rw (header_from_dict-to_dict fresh m.header) (rw (bytes_items-bytes F m.attachments))
