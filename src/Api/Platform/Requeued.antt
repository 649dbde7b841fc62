-- ===== src/Api/Platform/Requeued.antt =====
-- Requeued mail.
use dmarcparser.Api.Platform.{
  connect_imap, search_all, clear_seen, move_inbox, RequeueAnswer, poller_disabled, imap_error,
  requeued, Mailboxes, select_folder,
}
use dmarcparser.Base.{◌==◌, if◌then◌else◌, length, ◌+◌, ◌≡◌, List, [], ◌++◌, map, false}

-- Behind an answer with a number: so many mails have left the folder, all of them, and stand unseen behind
-- INBOX, and a poll is triggered if there was one. An error triggers no poll, and until the first command
-- that writes nothing has changed.
abbrev pub IsRequeued : Mailboxes → RequeueAnswer × Mailboxes → Type 0
IsRequeued s (poller_disabled, s') = s' ≡ s
IsRequeued s (imap_error connect_imap, s') = s' ≡ s
IsRequeued s (imap_error select_folder, s') = s' ≡ s
IsRequeued s (imap_error search_all, s') = s' ≡ s
IsRequeued s (imap_error clear_seen, s') = s'.triggers ≡ s.triggers
IsRequeued s (imap_error move_inbox, s') = s'.triggers ≡ s.triggers
IsRequeued s (requeued n, s') =
    (n ≡ length s.failed_mails)
    × (s'.failed_mails ≡ [])
    × (s'.inbox ≡ s.inbox ++ map (λ m. (m.0, false)) s.failed_mails)
    × (s'.triggers ≡ s.triggers + (if n == 0 then 0 else 1))
