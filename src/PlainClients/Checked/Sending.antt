-- ===== src/PlainClients/Checked/Sending.antt =====
-- The three clients together.
use practice_code_c_cpp.Prelude.{Bool, []}
use practice_code_c_cpp.Posix.{Script}
use practice_code_c_cpp.Posix.Keeps.{Ends}
use practice_code_c_cpp.PlainClients.OnSelect.{select_client}
use practice_code_c_cpp.PlainClients.OnPoll.{poll_client}
use practice_code_c_cpp.PlainClients.OnEpoll.{epoll_client}
use practice_code_c_cpp.PlainClients.Checked.{Checked}
use practice_code_c_cpp.PlainClients.Checked.BySelect.{select_client-Checked}
use practice_code_c_cpp.PlainClients.Checked.ByPoll.{poll_client-Checked}
use practice_code_c_cpp.PlainClients.Checked.ByEpoll.{epoll_client-Checked}

-- At every point of every run, whatever the system answers, each message that the select, the poll or
-- the epoll client (in both modes) has handed to send is the greeting of its socket, right behind a
-- getsockopt of that socket that found no error.
pub clients-Checked :
    (et_mode : Bool) (s : Script)
    → Ends Checked (λ _. Checked) (select_client s [])
      × Ends Checked (λ _. Checked) (poll_client s [])
      × Ends Checked (λ _. Checked) (epoll_client et_mode s [])
clients-Checked et_mode s =
    (select_client-Checked s, poll_client-Checked s, epoll_client-Checked et_mode s)
