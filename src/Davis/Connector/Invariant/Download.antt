-- ===== src/Davis/Connector/Invariant/Download.antt =====
-- The handlers of the download keep the connector sound.
use meteodata_server.Base.{◌+◌, ◌≤◌, ◌≡◌, ◌≢◌, inl, inr, true, arith, Bool-cases, ◌==◌}
use meteodata_server.Time.{DateLib}
use meteodata_server.Davis.Archive.{page_is_valid, store}
use meteodata_server.Davis.Connector.State.{
  sending_wake_up_archive, waiting_echo_archive, sending_req_archive, waiting_ack_archive,
  sending_archive_params, waiting_ack_archive_params, waiting_archive_nb_pages,
  sending_abort_archive_download, stopped, ErrorCode, success, no_io, Connector, World,
}
use meteodata_server.Davis.Connector.Download.{
  on_sending_wake_up_archive, on_waiting_echo_archive, on_sending_req_archive,
  on_waiting_ack_archive, on_sending_archive_params, on_waiting_ack_archive_params,
  on_waiting_archive_nb_pages, on_sending_abort_archive_download, on_waiting_archive_page,
  on_archive_answer_sent, publish_jobs, note_archive_times, on_download_done, on_valid_page,
  on_invalid_page,
}
use meteodata_server.Davis.Connector.Invariant.{
  IsSound, IsReady, IsOpen, stop-IsSound, success-IsOpen,
}

-- What the ends of the download branches leave alone.
publish_jobs_keeps :
    (w : World) (c : Connector)
    → let c' = publish_jobs w c in
      (c'.io ≡ c.io)
      × (c'.sock_open ≡ c.sock_open)
      × (c'.timeouts ≡ c.timeouts)
      × (c'.transmission_errors ≡ c.transmission_errors)
unfolding publish_jobs
publish_jobs_keeps w c = ground arith

note_archive_times_keeps :
    (c : Connector)
    → let c' = note_archive_times c in
      (c'.sock_open ≡ c.sock_open)
      × (c'.timeouts ≡ c.timeouts)
      × (c'.transmission_errors ≡ c.transmission_errors)
unfolding note_archive_times
note_archive_times_keeps c = ground arith

on_download_done-IsSound :
    (w : World) (c : Connector)
    → c.io ≡ no_io
    → c.sock_open ≡ true
    → c.timeouts ≤ 4
    → c.transmission_errors ≤ 100
    → IsSound (on_download_done w c)
unfolding on_download_done
on_download_done-IsSound w c io open_ t e = ground (
  arith,
  publish_jobs_keeps w
      (record c { nb_downloads = c.nb_downloads + 1; last_archive = c.newest_archive }),
)

pub on_archive_answer_sent-IsSound :
    (w : World) (e : ErrorCode) (c : Connector)
    → IsReady e c
    → c.state ≢ stopped
    → IsSound (on_archive_answer_sent w e c)
unfolding on_archive_answer_sent
on_archive_answer_sent-IsSound w success c r live =
    let o = success-IsOpen c r live in
    elim (Bool-cases (c.pages_left == 0)) [
      | inl none_left ↦
          rw none_left (on_download_done-IsSound w c o.io o.sock_open o.few_timeouts o.few_errors)
      | inr more ↦ rw more (ground (arith, o.few_timeouts))
    ]
on_archive_answer_sent-IsSound w _ c r live = stop-IsSound c

on_invalid_page-IsSound : (c : Connector) → IsOpen c → IsSound (on_invalid_page c)
unfolding on_invalid_page
on_invalid_page-IsSound c o = ground arith

on_valid_page-IsSound :
    (lib : DateLib) (w : World) (c : Connector) → IsOpen c → IsSound (on_valid_page lib w c)
unfolding on_valid_page
on_valid_page-IsSound lib w c o = ground (
  arith,
  note_archive_times_keeps (record c {
    archive_page = (store lib c.time_offseter.timezone_info w.now w.inserts c.archive_page).0;
  }),
)

pub on_waiting_archive_page-IsSound :
    (lib : DateLib) (w : World) (e : ErrorCode) (c : Connector)
    → IsReady e c
    → c.state ≢ stopped
    → IsSound (on_waiting_archive_page lib w e c)
unfolding on_waiting_archive_page
on_waiting_archive_page-IsSound lib w success c r live =
    let o = success-IsOpen c r live in
    elim (Bool-cases (page_is_valid c.archive_page)) [
      | inl valid ↦ rw valid (on_valid_page-IsSound lib w c o)
      | inr invalid ↦ rw invalid (on_invalid_page-IsSound c o)
    ]
on_waiting_archive_page-IsSound lib w _ c r live = stop-IsSound c

pub on_sending_wake_up_archive-IsSound :
    (e : ErrorCode) (c : Connector)
    → c.state ≡ sending_wake_up_archive
    → IsReady e c
    → IsSound (on_sending_wake_up_archive e c)
unfolding on_sending_wake_up_archive
on_sending_wake_up_archive-IsSound e c h r = ground arith

pub on_waiting_echo_archive-IsSound :
    (e : ErrorCode) (c : Connector)
    → c.state ≡ waiting_echo_archive
    → IsReady e c
    → IsSound (on_waiting_echo_archive e c)
unfolding on_waiting_echo_archive
on_waiting_echo_archive-IsSound e c h r = ground arith

pub on_sending_req_archive-IsSound :
    (e : ErrorCode) (c : Connector)
    → c.state ≡ sending_req_archive
    → IsReady e c
    → IsSound (on_sending_req_archive e c)
unfolding on_sending_req_archive
on_sending_req_archive-IsSound e c h r = ground arith

pub on_waiting_ack_archive-IsSound :
    (lib : DateLib) (e : ErrorCode) (c : Connector)
    → c.state ≡ waiting_ack_archive
    → IsReady e c
    → IsSound (on_waiting_ack_archive lib e c)
unfolding on_waiting_ack_archive
on_waiting_ack_archive-IsSound lib e c h r = ground arith

pub on_sending_archive_params-IsSound :
    (e : ErrorCode) (c : Connector)
    → c.state ≡ sending_archive_params
    → IsReady e c
    → IsSound (on_sending_archive_params e c)
unfolding on_sending_archive_params
on_sending_archive_params-IsSound e c h r = ground arith

pub on_waiting_ack_archive_params-IsSound :
    (e : ErrorCode) (c : Connector)
    → c.state ≡ waiting_ack_archive_params
    → IsReady e c
    → IsSound (on_waiting_ack_archive_params e c)
unfolding on_waiting_ack_archive_params
on_waiting_ack_archive_params-IsSound e c h r = ground arith

pub on_waiting_archive_nb_pages-IsSound :
    (e : ErrorCode) (c : Connector)
    → c.state ≡ waiting_archive_nb_pages
    → IsReady e c
    → IsSound (on_waiting_archive_nb_pages e c)
unfolding on_waiting_archive_nb_pages
on_waiting_archive_nb_pages-IsSound e c h r = ground arith

pub on_sending_abort_archive_download-IsSound :
    (w : World) (e : ErrorCode) (c : Connector)
    → c.state ≡ sending_abort_archive_download
    → IsReady e c
    → IsSound (on_sending_abort_archive_download w e c)
unfolding on_sending_abort_archive_download
on_sending_abort_archive_download-IsSound w e c h r = ground arith
