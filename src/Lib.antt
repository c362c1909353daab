-- ===== src/Lib.antt =====
-- A model of DigitalRoosterGui, an alarm clock with internet radio and podcasts, and its theorems.
--
-- The parts, and the files that model them:
--   Alarm          libsrc/alarm.cpp, include/alarm.hpp: an alarm, its setters and its JSON form.
--   Schedule       libsrc/alarm.cpp: get_next_instance and operator<.
--   Dispatcher     libsrc/alarmdispatcher.cpp: the upcoming alarm, its timer and its signals.
--   Monitor        libsrc/alarmmonitor.cpp: the fallback alarm.
--   SleepTimer     libsrc/sleeptimer.cpp: the timer that stops the playing.
--   Power          libsrc/powercontrol.cpp: active and standby.
--   VolumeButton   libsrc/volume_button.cpp: the events of the knob.
--   Brightness     libsrc/brightnesscontrol.cpp: the backlight and the light sensor.
--   Hardware       libsrc/hardwarecontrol_mk3.cpp, libsrc/hardware_configuration.cpp: the backlight,
--                  the light sensor, the events of button and knob, the paths of the devices,
--                  and libsrc/hardwarecontrol_stub.cpp.
--   Logging        libsrc/logger.cpp, libsrc/util.cpp: where the log goes, and its lines.
--   Network        libsrc/networkinfo.cpp, libsrc/httpclient.cpp: the network interface and the
--                  downloads.
--   Playable       libsrc/playableitem.cpp: playable items and podcast episodes.
--   Podcast        libsrc/PodcastSource.cpp: a podcast source, its episodes, its icon and its entry, and
--                  libsrc/podcast_serializer.cpp: the cache file, written and restored.
--   Rss            libsrc/rss2podcastsource.cpp: an RSS document, read into a podcast source.
--   Update         libsrc/UpdateTask.cpp: the periodic update of a podcast source.
--   Weather        libsrc/weather.cpp: the replies of the weather service, and its settings.
--   Configuration  libsrc/configuration.cpp: the stores (as finite maps in Maps), the settings, the
--                  file, written and read, the deferred write with the file watcher in Watching, what
--                  the file holds in Saving, and the start of the program in Creating.
--   Player         libsrc/mediaplayer.cpp, libsrc/mediaplayerproxy.cpp: positions, volume, and the
--                  session of calls and signals.
--   Rest           REST/common.hpp, REST/ApiHandler.cpp, REST/AlarmApi.cpp, REST/RadioApi.cpp and
--                  REST/PodcastApi.cpp: the ranges of the list requests, the requests for one
--                  alarm, station or podcast, and the server of all of these over the stores.
--   Wifi           libsrc/wifi_control.cpp: the scan state, the messages, the buffer of the answers,
--                  and the table of the scan results.
--   Models         qtgui/alarmlistmodel.cpp, qtgui/iradiolistmodel.cpp, qtgui/podcastsourcemodel.cpp,
--                  qtgui/podcastepisodemodel.cpp and qtgui/wifilistmodel.cpp: the list models.
--   Wiring         qtgui/main.cpp: the connections between Power, Monitor, SleepTimer, Brightness
--                  and VolumeButton, between Configuration and Dispatcher, in Machine of all of
--                  these to the hardware, in Ringing of Dispatcher to the device and Player, and in
--                  Remote of Rest to Dispatcher.
-- Base holds the shared names, the integers and std::sort; Calendar, Json and Double are what the
-- code takes from Qt and from the floating point unit, as parameters with documented laws; Tests
-- holds an instance of each parameter and the runs at concrete inputs.
--
-- A method is a function from the state to the new state and the signals that it emits, in order;
-- an exception is `none`. The dispatcher sorts the alarms of the store by operator<, for which it
-- needs get_next_instance, and its alarm_triggered is what the monitor and the sleep timer answer
-- to. Alarms are shared objects, so the dispatcher reads them from a heap, by rows of the vector where
-- it meets the store (Wiring.Stores), so two alarms may have one id, and the configuration hears of a
-- change through their signals (change_alarm). The requests for stations and podcasts
-- use a store only through its interface (Configuration.Maps). An `int` wraps at 32 bits where the
-- code narrows to it.
--
-- The three loops of the RSS parser run on fuel: a round reads a token or meets the end or an error,
-- so the tokens left, and one or two rounds more, are enough, and Rss.Loops proves that no loop runs
-- out. Every other function is total by recursion on a list or a number.
--
-- Files are read and written as JSON objects, and a document as the tokens of QXmlStreamReader: the
-- texts are Qt's. A file that cannot be opened is `none`.
--
-- Not modelled: the user interface, Qt's event loop and its timers beyond their start and stop,
-- the routes of the REST interface, the command line, and the copy of wpa_ctrl. The
-- texts of log messages are left out everywhere.
pub mod Base
pub mod Calendar
pub mod Json
pub mod Alarm
pub mod Schedule
pub mod Dispatcher
pub mod Playable
pub mod Podcast
pub mod Power
pub mod Logging
pub mod Monitor
pub mod VolumeButton
pub mod SleepTimer
pub mod Double
pub mod Brightness
pub mod Hardware
pub mod Weather
pub mod Configuration
pub mod Rest
pub mod Player
pub mod Wifi
pub mod Wiring
pub mod Rss
pub mod Network
pub mod Update
pub mod Models
pub mod Tests
