-- ===== src/VideoCapture.antt =====
-- c/video_capture_v4l2/capture.c: frames from a camera, by one of three ways of input and output.
pub mod Camera
pub mod Delivery
mod Examples
pub mod FormatSize
pub mod Frames
pub mod Main
pub mod Protocol
pub mod Setup
pub mod State
pub mod Yuv
